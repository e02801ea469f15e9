-- ===== src/Risk/Queries.antt =====
-- The settings of `RiskManager`, what it is told from outside, and its queries.
use coin_pilot.Base.{
  ℕ, zero, suc, Bool, false, ◌||◌, Option, none, some, [], ◌∷◌, if◌then◌else◌, get_or,
}
use coin_pilot.Base.Dict.{Dict, lookup, insert}
use coin_pilot.Number.{Number, ◌⊕◌, ◌⊗◌, ◌≺◌, ◌≼◌, ◌≈◌, whole, lit}
use coin_pilot.Store.{Db, Position, DailyRiskState}

pub record RiskConfig (D : Type 0) : Type 0 where
  pub max_per_order : D
  pub max_daily_loss : D
  pub max_daily_trades : ℕ
  pub cooldown_hours : ℕ
  pub fee_buffer : D
  pub max_total_exposure : D
  pub max_concurrent_positions : ℕ
  pub allow_same_coin_duplicate : Bool

-- What one call is told: the clock, the environment variable REFERENCE_EQUITY, and what Redis and
-- the table of candles answer. An answer is `none` where the value is missing, is no number, or
-- cannot be had.
pub record Env (D : Type 0) : Type 0 where
  pub today : ℕ
  pub now : ℕ
  pub reference_override : Option D
  pub cached_reference : Option D
  pub cached_price : ℕ → Option D
  pub latest_close : ℕ → Option D
  pub is_high_volatility : Bool

module _ {D : Type 0} ⦃d : Number D⦄ where
  -- ORDER_FEE_BUFFER_PCT, where it is a number in [0, 1), and 0.002 otherwise.
  unfoldable pub fee_buffer : Option D → D
  fee_buffer none = lit 2 3
  fee_buffer (some x) = if (x ≺ whole 0) || (whole 1 ≼ x) then lit 2 3 else x

  -- `__init__`: an argument that is given goes before the setting.
  unfoldable pub create_config :
      RiskConfig D → Option D → Option D → Option ℕ → Option ℕ → Option D → RiskConfig D
  create_config config per_order daily_loss daily_trades cooldown fee = record config {
    max_per_order = get_or per_order config.max_per_order;
    max_daily_loss = get_or daily_loss config.max_daily_loss;
    max_daily_trades = get_or daily_trades config.max_daily_trades;
    cooldown_hours = get_or cooldown config.cooldown_hours;
    fee_buffer = fee_buffer fee;
  }

  unfoldable pub get_volatility_multiplier : Env D → D
  get_volatility_multiplier env = if env.is_high_volatility then lit 5 1 else lit 10 1

  abbrev pub fresh_state : DailyRiskState D
  fresh_state = record {
    total_pnl = whole 0;
    buy_count = 0;
    sell_count = 0;
    trade_count = 0;
    consecutive_losses = 0;
    cooldown_until = none;
    is_trading_halted = false;
  }

  -- The state of a day, as the table has it or as it would be created.
  abbrev pub state_of : Db D → ℕ → DailyRiskState D
  state_of db day = get_or (lookup day db.daily_risk_state) fresh_state

  abbrev pub save_state : ℕ → DailyRiskState D → Db D → Db D
  save_state day s db = record db { daily_risk_state = insert day s db.daily_risk_state }

  -- `get_daily_state`: a missing row is created.
  unfoldable pub get_daily_state : Env D → Db D → DailyRiskState D × Db D
  get_daily_state env db = elim (lookup env.today db.daily_risk_state) [
    | some s ↦ (s, db)
    | none ↦ (fresh_state, save_state env.today fresh_state db)
  ]

  -- The rows with `Position.quantity > 0`.
  unfoldable pub open_positions : Dict (Position D) → Dict (Position D)
  open_positions [] = []
  open_positions ((s, p) ∷ rest) =
      let others = open_positions rest in if whole 0 ≺ p.quantity then (s, p) ∷ others else others

  abbrev count : Dict (Position D) → ℕ
  count [] = zero
  count (_ ∷ rest) = suc (count rest)

  unfoldable pub count_open_positions : Db D → ℕ
  count_open_positions db = count (open_positions db.positions)

  -- `_get_current_price`: Redis first, then the latest candle; 0 where there is neither.
  unfoldable pub get_current_price : Env D → ℕ → D
  get_current_price env symbol = elim (env.cached_price symbol) [
    | some price ↦ price
    | none ↦ elim (env.latest_close symbol) [
      | some row ↦ if row ≈ whole 0 then whole 0 else row
      | none ↦ whole 0
    ]
  ]

  -- What a position is worth: at its own average price where no price is known.
  unfoldable pub valuation : Env D → ℕ → Position D → D
  valuation env symbol p =
      let price = get_current_price env symbol in
      p.quantity ⊗ (if price ≈ whole 0 then p.avg_price else price)

  unfoldable pub exposure_from : Env D → D → Dict (Position D) → D
  exposure_from env total [] = total
  exposure_from env total ((s, p) ∷ rest) = exposure_from env (total ⊕ valuation env s p) rest

  unfoldable pub get_total_exposure : Env D → Db D → D
  get_total_exposure env db = exposure_from env (whole 0) (open_positions db.positions)

  unfoldable pub get_total_equity : Env D → Db D → D
  get_total_equity env db = elim db.account [
    | none ↦ whole 0
    | some balance ↦ balance ⊕ get_total_exposure env db
  ]

  -- `value if value > 0`
  abbrev pub if_positive : Option D → Option D
  if_positive none = none
  if_positive (some x) = if whole 0 ≺ x then some x else none

  abbrev computed_reference : Env D → Db D → D
  computed_reference env db =
      let equity = get_total_equity env db in
      if equity ≼ whole 0 then get_or db.account (whole 0) else equity

  -- `get_reference_equity`: the value, and what is written to Redis under the day's key.
  unfoldable pub get_reference_equity : Env D → Db D → D × Option D
  get_reference_equity env db = elim (if_positive env.reference_override) [
    | some fixed ↦ (fixed, none)
    | none ↦ elim (if_positive env.cached_reference) [
      | some value ↦ (value, none)
      | none ↦ let r = computed_reference env db in (r, some r)
    ]
  ]

  unfoldable pub has_position : Db D → ℕ → Bool
  has_position db symbol = elim (lookup symbol db.positions) [
    | none ↦ false
    | some p ↦ whole 0 ≺ p.quantity
  ]
