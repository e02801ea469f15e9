-- ===== src/Risk/Day/Halt.antt =====
-- A halt lasts for the day.
use coin_pilot.Base.{ℕ, ◌≡◌, ◌≢◌, true, none, List, [], ◌∷◌, arith}
use coin_pilot.Number.{Number}
use coin_pilot.Store.{Db, DailyRiskState, Side, buy, sell}
use coin_pilot.Risk.{RiskConfig, Env, state_of, check_order_validity, after_trade}
use coin_pilot.Risk.Approval.{check_order_validity-Approved}
use coin_pilot.Risk.Day.{Op, check, trade, step, run, check-HaltOnly, state_of-update_after_trade}

abbrev pub IsHalted : {D : Type 0} ⦃d : Number D⦄ → ℕ → Db D → Type 0
IsHalted day db = (state_of db day).is_trading_halted ≡ true

module _ {D : Type 0} ⦃d : Number D⦄ (cfg : RiskConfig D) where
  after_trade-halted :
      (now : ℕ) (pnl : D) (side : Side) (s : DailyRiskState D)
      → (after_trade cfg now pnl side s).is_trading_halted ≡ s.is_trading_halted
  unfolding after_trade
  after_trade-halted now pnl buy s = ground arith
  after_trade-halted now pnl sell s = ground arith

  step-IsHalted :
      (op : Op D) (db : Db D) (day : ℕ) → IsHalted day db → IsHalted day (step cfg op db)
  unfolding step
  step-IsHalted (check env symbol amount) db day h =
      ground (arith, check-HaltOnly cfg env symbol amount db day)
  step-IsHalted (trade env pnl side) db day h = ground (
    arith,
    state_of-update_after_trade cfg env pnl side db day,
    after_trade-halted env.now pnl side (state_of db day),
  )

  run-IsHalted :
      (ops : List (Op D)) (db : Db D) (day : ℕ) → IsHalted day db → IsHalted day (run cfg ops db)
  unfolding run
  run-IsHalted [] db day h = h
  run-IsHalted (op ∷ ops) db day h =
      run-IsHalted ops (step cfg op db) day (step-IsHalted op db day h)

  -- Once the trading of a day is halted, it stays so through any checks and trades, and after them
  -- no order of that day is let through, whatever its symbol and amount.
  pub halt_lasts :
      (ops : List (Op D)) (db : Db D) (env : Env D) (symbol : ℕ) (amount : D)
      → IsHalted env.today db
      → IsHalted env.today (run cfg ops db)
        × ((check_order_validity cfg env symbol amount (run cfg ops db)).rejection ≢ none)
  halt_lasts ops db env symbol amount h =
      let h' = run-IsHalted ops db env.today h in
      (
        h',
        λ e.
            let a = (check_order_validity-Approved cfg env symbol amount (run cfg ops db)).0 e in
            cc (h', a.limits.trading),
      )
