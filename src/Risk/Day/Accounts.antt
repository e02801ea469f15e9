-- ===== src/Risk/Day/Accounts.antt =====
-- The counters of a day account for its trades.
use coin_pilot.Base.{ℕ, ◌+◌, ◌<◌, ◌≡◌, List, [], ◌∷◌, arith, ◌==◌, if◌then◌else◌}
use coin_pilot.Number.{Number, ◌⊕◌}
use coin_pilot.Store.{Db, DailyRiskState, Side, buy, sell}
use coin_pilot.Risk.{RiskConfig, Env, state_of, after_trade}
use coin_pilot.Risk.Day.{Op, check, trade, step, run, check-HaltOnly, state_of-update_after_trade}

module _ {D : Type 0} ⦃d : Number D⦄ where
  -- The trades of the day, and the sum of the results of its sales, added from the left.
  abbrev pub buys : ℕ → List (Op D) → ℕ
  buys day [] = 0
  buys day (check _ _ _ ∷ ops) = buys day ops
  buys day (trade env _ buy ∷ ops) = (if env.today == day then 1 else 0) + buys day ops
  buys day (trade env _ sell ∷ ops) = buys day ops

  abbrev pub sells : ℕ → List (Op D) → ℕ
  sells day [] = 0
  sells day (check _ _ _ ∷ ops) = sells day ops
  sells day (trade env _ buy ∷ ops) = sells day ops
  sells day (trade env _ sell ∷ ops) = (if env.today == day then 1 else 0) + sells day ops

  abbrev pub pnl_from : D → ℕ → List (Op D) → D
  pnl_from total day [] = total
  pnl_from total day (check _ _ _ ∷ ops) = pnl_from total day ops
  pnl_from total day (trade env _ buy ∷ ops) = pnl_from total day ops
  pnl_from total day (trade env pnl sell ∷ ops) =
      pnl_from (if env.today == day then total ⊕ pnl else total) day ops

  -- `s'` is `s` after the trades.
  pub record Accounts (s : DailyRiskState D) (day : ℕ) (ops : List (Op D)) (s' : DailyRiskState D)
      : Type 0 where
    pub bought : s'.buy_count ≡ s.buy_count + buys day ops
    pub sold : s'.sell_count ≡ s.sell_count + sells day ops
    pub traded : s'.trade_count ≡ s.trade_count + buys day ops + sells day ops
    pub result : s'.total_pnl ≡ pnl_from s.total_pnl day ops
    pub losses : s.consecutive_losses < 3 → s'.consecutive_losses < 3

module _ {D : Type 0} ⦃d : Number D⦄ (cfg : RiskConfig D) where
  trade-Accounts :
      (env : Env D) (pnl : D) (side : Side) (db : Db D) (day : ℕ)
      → Accounts
          (state_of db day)
          day
          (trade env pnl side ∷ [])
          (state_of (step cfg (trade env pnl side) db) day)
  unfolding step after_trade
  trade-Accounts env pnl buy db day =
      ground (arith, state_of-update_after_trade cfg env pnl buy db day)
  trade-Accounts env pnl sell db day =
      ground (arith, state_of-update_after_trade cfg env pnl sell db day)

  Accounts-cons :
      (s s' s'' : DailyRiskState D) (day : ℕ) (op : Op D) (ops : List (Op D))
      → Accounts s day (op ∷ []) s'
      → Accounts s' day ops s''
      → Accounts s day (op ∷ ops) s''
  Accounts-cons s s' s'' day (check _ _ _) ops a b = ground arith
  Accounts-cons s s' s'' day (trade env pnl buy) ops a b = ground arith
  Accounts-cons s s' s'' day (trade env pnl sell) ops a b = ground arith

  step-Accounts :
      (op : Op D) (db : Db D) (day : ℕ)
      → Accounts (state_of db day) day (op ∷ []) (state_of (step cfg op db) day)
  unfolding step
  step-Accounts (check env symbol amount) db day =
      ground (arith, check-HaltOnly cfg env symbol amount db day)
  step-Accounts (trade env pnl side) db day = trade-Accounts env pnl side db day

  -- Through any checks and trades of any days, the row of each day counts that day's buys and
  -- sales, `trade_count` counts both, `total_pnl` is the sum of that day's sales, and the count of
  -- losses in a row stays under three.
  pub run-Accounts :
      (ops : List (Op D)) (db : Db D) (day : ℕ)
      → Accounts (state_of db day) day ops (state_of (run cfg ops db) day)
  unfolding run
  run-Accounts [] db day = ground arith
  run-Accounts (op ∷ ops) db day =
      Accounts-cons (state_of db day) (state_of (step cfg op db) day)
        (state_of (run cfg ops (step cfg op db)) day) day op ops (step-Accounts op db day)
        (run-Accounts ops (step cfg op db) day)
