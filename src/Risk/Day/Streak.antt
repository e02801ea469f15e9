-- ===== src/Risk/Day/Streak.antt =====
-- Three losses in a row start a cooldown, and the count begins anew.
use coin_pilot.Base.{
  ℕ, ◌+◌, ◌*◌, ◌%◌, ◌<◌, ◌≡◌, ◌≢◌, true, Option, none, some, List, [], ◌∷◌, arith, length,
}
use coin_pilot.Number.{Number, ◌≺◌, whole}
use coin_pilot.Store.{Db, DailyRiskState, sell}
use coin_pilot.Risk.{
  RiskConfig, Env, state_of, after_sell, after_trade, update_after_trade, check_order_validity,
}
use coin_pilot.Risk.Approval.{check_order_validity-Approved}
use coin_pilot.Risk.Day.{state_of-update_after_trade}

module _ {D : Type 0} ⦃d : Number D⦄ (cfg : RiskConfig D) where
  -- Losing sales, one after the other, each at its time.
  pub lose : List (ℕ × D) → DailyRiskState D → DailyRiskState D
  lose [] s = s
  lose ((now, pnl) ∷ sales) s = lose sales (after_sell cfg now pnl s)

  abbrev pub AllLosses : List (ℕ × D) → Type 0
  AllLosses [] = Unit
  AllLosses ((_, pnl) ∷ sales) = ((pnl ≺ whole 0) ≡ true) × AllLosses sales

  -- The end of the cooldown that the last third loss has started, or the old one.
  abbrev pub last_third : Option ℕ → List (ℕ × D) → Option ℕ
  last_third until (_ ∷ _ ∷ (now, _) ∷ sales) =
      last_third (some (now + cfg.cooldown_hours * 3_600_000_000)) sales
  last_third until _ = until

  -- From a count of zero, any number of losing sales leaves the count at that number modulo three,
  -- and the cooldown runs from the last loss that completed three in a row, or is as it was.
  pub lose_streak :
      (sales : List (ℕ × D)) (s : DailyRiskState D)
      → AllLosses sales
      → s.consecutive_losses ≡ 0
      → ((lose sales s).consecutive_losses ≡ length sales % 3)
        × ((lose sales s).cooldown_until ≡ last_third s.cooldown_until sales)
  unfolding lose after_sell
  lose_streak [] s h z = ground arith
  lose_streak (a ∷ []) s h z = ground arith
  lose_streak (a ∷ b ∷ []) s h z = ground arith
  lose_streak ((t, p) ∷ (u, q) ∷ (v, r) ∷ sales) s h z =
      let s' = after_sell cfg v r (after_sell cfg u q (after_sell cfg t p s)) in
      ground (arith, lose_streak sales s' h.1.1.1)

  -- After the sale that makes the third loss of a row, no order of that day is let through before
  -- the cooldown hours are over, whatever its symbol and amount.
  pub third_loss_blocks :
      (env env' : Env D) (pnl amount : D) (symbol : ℕ) (db : Db D)
      → (state_of db env.today).consecutive_losses ≡ 2
      → (pnl ≺ whole 0) ≡ true
      → env'.today ≡ env.today
      → env'.now < env.now + cfg.cooldown_hours * 3_600_000_000
      → (check_order_validity cfg env' symbol amount
          (update_after_trade cfg env pnl sell db)).rejection
        ≢ none
  unfolding after_trade
  third_loss_blocks env env' pnl amount symbol db two loss day early e =
      let db' = update_after_trade cfg env pnl sell db in
      let a = (check_order_validity-Approved cfg env' symbol amount db').0 e in
      ground
        (arith, a.limits.not_cooling, state_of-update_after_trade cfg env pnl sell db env.today)
