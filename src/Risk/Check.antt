-- ===== src/Risk/Check.antt =====
-- `check_order_validity`. A rejection stands for its message.
use coin_pilot.Base.{ℕ, Bool, true, false, not, ◌&&◌, Option, none, some, if◌then◌else◌, ltb, leb}
use coin_pilot.Number.{Number, ◌⊕◌, ◌⊖◌, ◌⊗◌, ◌≺◌, ◌≼◌, whole}
use coin_pilot.Store.{Db, DailyRiskState}
use coin_pilot.Risk.Queries.{
  RiskConfig, Env, get_daily_state, get_reference_equity, get_volatility_multiplier,
  get_total_exposure, has_position, count_open_positions, save_state,
}

pub data Rejection : Type 0 where
  account_missing amount_not_positive reference_not_positive : Rejection
  trading_halted cooling_down daily_trades daily_loss : Rejection
  order_limit cash_short exposure_limit position_limit duplicate : Rejection

-- A rule that rejects returns at once.
infixl 5 ◌>>◌
abbrev ◌>>◌ : Option Rejection → Option Rejection → Option Rejection
none >> k = k
some r >> k = some r

abbrev reject_if : Bool → Rejection → Option Rejection
reject_if true r = some r
reject_if false r = none

-- `state.cooldown_until and state.cooldown_until > now`
abbrev pub cooling : Option ℕ → ℕ → Bool
cooling none now = false
cooling (some t) now = ltb now t

-- What the check returns: no rejection, or the first; the tables; and a write to Redis.
pub record Checked (D : Type 0) : Type 0 where
  pub rejection : Option Rejection
  pub db : Db D
  pub cached : Option D

module _ {D : Type 0} ⦃d : Number D⦄ (cfg : RiskConfig D) where
  -- `-(reference_equity * self.max_daily_loss)`
  unfoldable pub loss_floor : D → D
  loss_floor reference = d.neg (reference ⊗ cfg.max_daily_loss)

  unfoldable pub max_order_amount : Env D → D → D
  max_order_amount env reference = (reference ⊗ cfg.max_per_order) ⊗ get_volatility_multiplier env

  unfoldable pub available_cash : D → D
  available_cash balance = balance ⊗ (whole 1 ⊖ cfg.fee_buffer)

  -- Rules 2 to 9, in the order of the code.
  unfoldable pub apply_rules : Env D → Db D → DailyRiskState D → ℕ → D → D → D → Option Rejection
  apply_rules env db state symbol amount balance reference = do
    reject_if state.is_trading_halted trading_halted
    reject_if (cooling state.cooldown_until env.now) cooling_down
    reject_if (leb cfg.max_daily_trades state.buy_count) daily_trades
    reject_if (state.total_pnl ≼ loss_floor reference) daily_loss
    reject_if (max_order_amount env reference ≺ amount) order_limit
    reject_if (available_cash balance ≺ amount) cash_short
    reject_if (reference ⊗ cfg.max_total_exposure ≺ get_total_exposure env db ⊕ amount)
        exposure_limit
    reject_if
        (not (has_position db symbol) && leb cfg.max_concurrent_positions (count_open_positions db))
        position_limit
    reject_if (not cfg.allow_same_coin_duplicate && has_position db symbol) duplicate
    none

  -- Rule 5 halts the trading of the day when it rejects.
  abbrev pub settle : Env D → DailyRiskState D → Option Rejection → Db D → Db D
  settle env state (some daily_loss) db =
      save_state env.today (record state { is_trading_halted = true }) db
  settle env state _ db = db

  -- The check, once the state of the day is there.
  unfoldable pub check_in : Env D → ℕ → D → DailyRiskState D → Db D → Checked D
  check_in env symbol amount state db = elim db.account [
    | none ↦ record { rejection = some account_missing; db = db; cached = none }
    | some balance ↦
        if amount ≼ whole 0
        then record { rejection = some amount_not_positive; db = db; cached = none }
        else let (reference, cached) = get_reference_equity env db in
          if reference ≼ whole 0
          then record { rejection = some reference_not_positive; db = db; cached = cached }
          else let r = apply_rules env db state symbol amount balance reference in
            record { rejection = r; db = settle env state r db; cached = cached }
  ]

  unfoldable pub check_order_validity : Env D → ℕ → D → Db D → Checked D
  check_order_validity env symbol amount db₀ =
      let (state, db) = get_daily_state env db₀ in check_in env symbol amount state db
