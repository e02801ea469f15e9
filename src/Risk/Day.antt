-- ===== src/Risk/Day.antt =====
-- A day of the risk manager: any sequence of checks and trades.
pub mod Halt
pub mod Accounts
pub mod Streak
use coin_pilot.Base.{
  ℕ, ◌≡◌, true, Option, none, some, List, [], ◌∷◌, arith, sym, ◌∙◌, ◌==◌, if◌then◌else◌,
  Option-cases, inl, inr, get_or,
}
use coin_pilot.Base.Dict.{lookup, insert, lookup-insert}
use coin_pilot.Number.{Number}
use coin_pilot.Store.{Db, DailyRiskState, Side}
use coin_pilot.Risk.{
  RiskConfig, Env, state_of, save_state, fresh_state, get_daily_state, check_in,
  check_order_validity, after_trade, update_after_trade, settle, daily_loss,
}

pub data Op (D : Type 0) : Type 0 where
  check : Env D → ℕ → D → Op D
  trade : Env D → D → Side → Op D

abbrev pub env_of : {D : Type 0} → Op D → Env D
env_of (check env _ _) = env
env_of (trade env _ _) = env

abbrev pub OnDay : {D : Type 0} → ℕ → List (Op D) → Type 0
OnDay day [] = Unit
OnDay day (op ∷ ops) = ((env_of op).today ≡ day) × OnDay day ops

module _ {D : Type 0} ⦃d : Number D⦄ (cfg : RiskConfig D) where
  pub step : Op D → Db D → Db D
  step (check env symbol amount) db = (check_order_validity cfg env symbol amount db).db
  step (trade env pnl side) db = update_after_trade cfg env pnl side db

  pub run : List (Op D) → Db D → Db D
  run [] db = db
  run (op ∷ ops) db = run ops (step op db)

  -- The row is as it was, but for the halt, which is never lifted.
  pub record HaltOnly (s s' : DailyRiskState D) : Type 0 where
    pub same : s' ≡ record s { is_trading_halted = s'.is_trading_halted }
    pub kept : s.is_trading_halted ≡ true → s'.is_trading_halted ≡ true

  state_of-get_daily_state :
      (env : Env D) (db : Db D) (day : ℕ)
      → ((get_daily_state env db).0 ≡ state_of db env.today)
        × (state_of (get_daily_state env db).1 day ≡ state_of db day)
  unfolding get_daily_state
  state_of-get_daily_state env db day =
      ground (arith, lookup-insert env.today day fresh_state db.daily_risk_state)

  check_in-HaltOnly :
      (env : Env D) (symbol : ℕ) (amount : D) (s : DailyRiskState D) (db : Db D) (day : ℕ)
      → s ≡ state_of db env.today
      → HaltOnly (state_of db day) (state_of (check_in cfg env symbol amount s db).db day)
  unfolding check_in
  check_in-HaltOnly env symbol amount s db day e =
      let halted = record s { is_trading_halted = true } in
      ground (arith, e, lookup-insert env.today day halted db.daily_risk_state)

  pub check-HaltOnly :
      (env : Env D) (symbol : ℕ) (amount : D) (db : Db D) (day : ℕ)
      → HaltOnly (state_of db day) (state_of (check_order_validity cfg env symbol amount db).db day)
  unfolding check_order_validity
  check-HaltOnly env symbol amount db day =
      let (s, db') = get_daily_state env db in
      let (here, there) = state_of-get_daily_state env db day in
      let (_, again) = state_of-get_daily_state env db env.today in
      rw there at (check_in-HaltOnly env symbol amount s db' day (here ∙ sym again))

  pub state_of-update_after_trade :
      (env : Env D) (pnl : D) (side : Side) (db : Db D) (day : ℕ)
      → state_of (update_after_trade cfg env pnl side db) day ≡ (
          if env.today == day
          then after_trade cfg env.now pnl side (state_of db day)
          else state_of db day)
  unfolding update_after_trade
  state_of-update_after_trade env pnl side db day =
      let (s, db') = get_daily_state env db in
      ground (
        arith,
        state_of-get_daily_state env db day,
        lookup-insert env.today day (after_trade cfg env.now pnl side s) db'.daily_risk_state,
      )
