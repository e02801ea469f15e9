-- ===== src/Risk/Approval.antt =====
-- An order is let through exactly when it keeps every limit.
use coin_pilot.Base.{ℕ, ◌≡◌, ◌↔◌, ◌<◌, false, none, some, arith, Option-cases, inl, inr}
use coin_pilot.Base.Dict.{lookup}
use coin_pilot.Number.{Number, ◌⊕◌, ◌⊗◌, ◌≺◌, ◌≼◌, whole}
use coin_pilot.Store.{Db, DailyRiskState}
use coin_pilot.Risk.{
  RiskConfig, Env, state_of, save_state, fresh_state, get_total_equity, get_reference_equity,
  get_total_exposure, has_position, count_open_positions, loss_floor, max_order_amount,
  available_cash, apply_rules, cooling, get_daily_state, check_in, check_order_validity,
}

module _ {D : Type 0} ⦃d : Number D⦄ (cfg : RiskConfig D) (env : Env D) (symbol : ℕ)
    (amount : D) where
  -- Every limit, for an account with this balance and this reference equity.
  pub record WithinLimits (db : Db D) (state : DailyRiskState D) (balance reference : D)
      : Type 0 where
    pub trading : state.is_trading_halted ≡ false
    pub not_cooling : cooling state.cooldown_until env.now ≡ false
    pub trades : state.buy_count < cfg.max_daily_trades
    pub loss : (state.total_pnl ≼ loss_floor cfg reference) ≡ false
    pub order : (max_order_amount cfg env reference ≺ amount) ≡ false
    pub cash : (available_cash cfg balance ≺ amount) ≡ false
    pub exposure : (reference ⊗ cfg.max_total_exposure ≺ get_total_exposure env db ⊕ amount) ≡ false
    pub positions :
        has_position db symbol ≡ false → count_open_positions db < cfg.max_concurrent_positions
    pub no_duplicate : cfg.allow_same_coin_duplicate ≡ false → has_position db symbol ≡ false

  rules-WithinLimits :
      (db : Db D) (state : DailyRiskState D) (balance reference : D)
      → (apply_rules cfg env db state symbol amount balance reference ≡ none)
        ↔ WithinLimits db state balance reference
  unfolding apply_rules
  rules-WithinLimits db state balance reference = ground arith

  pub record Approved (db : Db D) (state : DailyRiskState D) : Type 0 where
    pub balance : D
    pub has_account : db.account ≡ some balance
    pub positive : (amount ≼ whole 0) ≡ false
    pub reference_positive : ((get_reference_equity env db).0 ≼ whole 0) ≡ false
    pub limits : WithinLimits db state balance (get_reference_equity env db).0

  check_in-Approved :
      (db : Db D) (state : DailyRiskState D)
      → ((check_in cfg env symbol amount state db).rejection ≡ none) ↔ Approved db state
  unfolding check_in
  check_in-Approved db state = elim (Option-cases db.account) [
    | inl none_ ↦ ground arith
    | inr (b, h) ↦
        rw h (ground (arith, rules-WithinLimits db state b (get_reference_equity env db).0))
  ]

  -- The row of the day is no part of what the limits are measured against.
  Approved-save :
      (day : ℕ) (row state : DailyRiskState D) (db : Db D)
      → Approved (save_state day row db) state ↔ Approved db state
  unfolding get_reference_equity get_total_equity get_total_exposure has_position
      count_open_positions
  Approved-save day row state db = ground arith

  -- The order is let through exactly when there is an account, the amount and the reference equity
  -- are positive, and, with the state of the day as it stands or as it would be created, every
  -- limit is kept: no halt, no cooldown, fewer buys than a day allows, a loss above the floor, the
  -- amount within the order limit, the cash and the total exposure, a free place for a new
  -- position, and no second position of the symbol unless duplicates are allowed.
  pub check_order_validity-Approved :
      (db : Db D)
      → ((check_order_validity cfg env symbol amount db).rejection ≡ none)
        ↔ Approved db (state_of db env.today)
  unfolding check_order_validity get_daily_state
  check_order_validity-Approved db = elim (Option-cases (lookup env.today db.daily_risk_state)) [
    | inl new ↦ ground (
      arith,
      new,
      check_in-Approved (save_state env.today fresh_state db) fresh_state,
      Approved-save env.today fresh_state fresh_state db,
    )
    | inr (s, old) ↦ ground (arith, old, check_in-Approved db s)
  ]
