-- ===== src/Strategy/Exit/Decision.antt =====
-- What each answer of `check_exit_signal` says of the position.
use coin_pilot.Base.{
  ℕ, ◌≡◌, refl, ◌↔◌, ◌≢◌, true, false, ◌&&◌, Option, none, some, arith, if◌then◌else◌, Bool-cases,
  inl, inr,
}
use coin_pilot.Base.Result.{ok}
use coin_pilot.Number.{Number, Convert, ◌≼◌, ◌≺◌, ◌≈◌, ◌⊖◌, whole}
use coin_pilot.Number.Order.{IsOrdered, le_refl, lt→le, not-lt→le}
use coin_pilot.Strategy.Config.{Regime, ExitConfig, Regimes}
use coin_pilot.Strategy.Trailing.{or_entry}
use coin_pilot.Strategy.Trailing.Peak.{
  advance, fires, started, create_lem, update_lem, gain_defined,
}
use coin_pilot.Strategy.Exit.{
  Exit, stop_loss, trailing_stop, later_exit, PositionInfo, get_adjusted_exit_config,
  check_exit_signal, decide, pnl_ratio, mark_of, rsi_over, held_longer,
}

module _ {F : Type 0} ⦃f : Number F⦄ where
  -- The new mark is at least the old one and the price.
  abbrev pub Raised : F → F → Option F → Type 0
  Raised mark price none = ⊥
  Raised mark price (some m) = ((mark ≼ m) ≡ true) × ((price ≼ m) ≡ true)

  pub record Decided (cfg : ExitConfig F) (rsi : Option F) (opened : Option ℕ) (now : ℕ)
      (pnl mark price : F) (e : Exit F) : Type 0 where
    pub stops : (e.reason ≡ some stop_loss) ↔ ((pnl ≼ f.neg cfg.stop_loss_pct) ≡ true)
    pub stays :
        e.reason ≡ none
        → ((cfg.take_profit_pct ≼ pnl) ≡ false)
          × ((rsi_over rsi cfg.rsi_overbought && (cfg.rsi_exit_min_profit_pct ≼ pnl)) ≡ false)
          × (held_longer opened now cfg.time_limit_hours ≡ false)
    pub raised : e.reason ≢ some stop_loss → Raised mark price e.new_hwm

module _ {D F : Type 0} ⦃d : Number D⦄ ⦃f : Number F⦄ ⦃c : Convert D F⦄ where
  pnl_defined :
      IsOrdered D
      → (close entry : D) → (entry ≈ whole 0) ≡ false
      → (pnl : F) × (pnl_ratio close entry ≡ ok pnl)
  unfolding pnl_ratio
  pnl_defined o close entry nz =
      let (q, e) = o.div_defined (close ⊖ entry) entry nz in (c.to_float q, rw e)

  decide-Decided :
      IsOrdered F
      → (cfg : ExitConfig F) (rsi : Option F) (pos : PositionInfo D) (close : D) (now : ℕ) (pnl : F)
      → (whole 0 ≺ c.to_float pos.avg_price) ≡ true
      → pnl_ratio close pos.avg_price ≡ ok pnl
      → (e : Exit F) × (decide cfg rsi pos close now ≡ ok e)
        × Decided cfg rsi pos.opened_at now pnl
            (or_entry (some (mark_of pos.high_water_mark pos.avg_price)) (c.to_float pos.avg_price))
            (c.to_float close)
            e
  unfolding decide
  decide-Decided o cfg rsi pos close now pnl pe r =
      let entry = c.to_float pos.avg_price in
      let mark : F = mark_of pos.high_water_mark pos.avg_price in
      let price = c.to_float close in
      let (g, eg) = gain_defined o mark entry pe in
      let (h, eh) = gain_defined o price entry pe in
      let ts = started entry cfg.trailing_stop_pct cfg.trailing_stop_activation_pct mark g in
      let ts' = advance ts price h in
      elim (Bool-cases (pnl ≼ f.neg cfg.stop_loss_pct)) [
        | inl low ↦ (
          record { reason = some stop_loss; new_hwm = none },
          rw (r, low) refl,
          record { stops = ground arith; stays = λ e. cc; raised = λ e. absurd (e refl) },
        )
        | inr high ↦ (
          record {
            reason =
                if fires ts' price
                then some trailing_stop
                else later_exit cfg pnl rsi pos.opened_at now;
            new_hwm = some ts'.high_water_mark;
          },
          rw
              (
                r,
                high,
                create_lem entry cfg.trailing_stop_pct cfg.trailing_stop_activation_pct mark g eg,
                update_lem ts price h eh,
              )
              refl,
          record {
            stops = ground arith;
            stays = ground arith;
            raised = λ _. ground (
              arith,
              le_refl o ts.high_water_mark,
              le_refl o price,
              lt→le o ts.high_water_mark price,
              not-lt→le o ts.high_water_mark price,
            );
          },
        )
      ]

  -- For a position with a price that is positive as a float too, and a close, `check_exit_signal`
  -- never raises. With the adjusted exit settings and the position's profit: it answers STOP_LOSS
  -- exactly when the profit is at or under the stop; it answers that the position stays only when
  -- the profit is under the target, RSI(14) gives no exit, and the time is not up; and unless it
  -- stops the loss it leaves a mark that is at least the old mark and the close.
  pub check-Decided :
      IsOrdered D
      → IsOrdered F
      → (regimes : Regimes F) (current : Regime) (x : F) (rsi : Option F) (pos : PositionInfo D)
        (now : ℕ)
      → (pos.avg_price ≈ whole 0) ≡ false
      → (whole 0 ≺ c.to_float pos.avg_price) ≡ true
      → (pnl : F) × (e : Exit F) × (pnl_ratio (c.to_decimal x) pos.avg_price ≡ ok pnl)
        × (check_exit_signal regimes current (some x) rsi pos now ≡ ok e)
        × Decided
            (get_adjusted_exit_config regimes pos.regime current)
            rsi
            pos.opened_at
            now
            pnl
            (or_entry (some (mark_of pos.high_water_mark pos.avg_price)) (c.to_float pos.avg_price))
            (c.to_float (c.to_decimal x))
            e
  unfolding check_exit_signal
  check-Decided od of regimes current x rsi pos now nz pe =
      let close = c.to_decimal x in
      let (pnl, r) = pnl_defined od close pos.avg_price nz in
      let (e, run, decided) =
        decide-Decided of (get_adjusted_exit_config regimes pos.regime current) rsi pos close now
          pnl pe r in
      (pnl, e, r, rw nz run, decided)
