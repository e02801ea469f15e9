-- ===== src/Bot.antt =====
-- The round of one symbol in `bot_loop` of src/bot/main.py. It composes the other parts.
pub mod Buys
pub mod Exits
pub mod Limit
mod Tests
use coin_pilot.Base.{
  ℕ, ◌/◌, String, Bool, true, false, Option, none, some, if◌then◌else◌, get_or, ltb,
}
use coin_pilot.Base.Dict.{lookup, insert}
use coin_pilot.Base.Result.{
  Result, ok, raise, Exn, invalid_operation, zero_division, or_raise, ◌>>=◌,
}
use coin_pilot.Number.{Number, Convert, ◌⊖◌, ◌⊗◌, ◌⊘◌, ◌≼◌, ◌≈◌, ◌≺◌, whole}
use coin_pilot.Store.{Db, Position, Side, buy, sell}
use coin_pilot.Strategy.Config.{Regime, Regimes, RegimeConfig, regime_config}
use coin_pilot.Strategy.Entry.{Indicators, check_entry_signal}
use coin_pilot.Strategy.Exit.{ExitReason, Exit, PositionInfo, check_exit_signal, min_of}
use coin_pilot.Risk.{
  RiskConfig, Env, Rejection, Checked, available_cash, get_reference_equity, get_total_exposure,
  check_order_validity, update_after_trade,
}
use coin_pilot.Executor.{Order, execute_order, get_balance}
use coin_pilot.Redis.{Redis}
use coin_pilot.Guardrails.{
  GuardConfig, Block, should_block_ai_call, mark_ai_call_started,
  update_ai_guardrails_after_decision,
}
use coin_pilot.Prefilter.{PrefilterConfig, BearFeatures, Skip, should_run_ai_analysis}

pub record BotConfig (D F : Type 0) : Type 0 where
  pub regimes : Regimes F
  pub guard : Regime → GuardConfig
  pub prefilter : Regime → PrefilterConfig F
  pub risk : RiskConfig D
  pub default_balance : D

-- What one round is told: of the candles their number, the age of the last one, and the
-- indicators; of the hourly context its length and features; and the answer of the AI agents, with
-- their reasoning. `close` is the close among the indicators, which is always there.
pub record Round (D F : Type 0) : Type 0 where
  pub symbol : ℕ
  pub candles : ℕ
  pub age : ℕ
  pub indicators : Indicators F
  pub close : F
  pub env : Env D
  pub context_len : ℕ
  pub features : BearFeatures F
  pub answer : Result (Bool × String)

-- How a round ends: `bot_action` with its reason, or the exception that the loop catches.
pub data Action : Type 0 where
  waiting stale hold no_signal amount_zero quantity_zero buy_failed bought : Action
  sell_failed sold : ExitReason → Action
  risk_rejected : Rejection → Action
  prefiltered : Skip → Action
  guarded : Block → Action
  failed : Exn → Action

abbrev pub verdict : Result (Bool × String) → Result Bool
verdict (ok (b, _)) = ok b
verdict (raise e) = raise e

abbrev or_else : {A : Type 0} → Option A → Option A → Option A
or_else none b = b
or_else (some a) b = some a

-- What the order may be worth: the least of the three caps.
pub record Caps (D : Type 0) : Type 0 where
  pub target : D
  pub cash : D
  pub exposure : D

module _ {D F : Type 0} ⦃d : Number D⦄ ⦃f : Number F⦄ ⦃c : Convert D F⦄ (cfg : BotConfig D F)
    (x : Round D F) where
  -- Redis counts in seconds.
  abbrev pub second : ℕ
  second = x.env.now / 1_000_000

  abbrev pub price : D
  price = c.to_decimal x.close

  abbrev pub ratio_of : Option (RegimeConfig F) → F
  ratio_of none = f.lit 0 1
  ratio_of (some rc) = get_or rc.position_size_ratio (f.lit 0 1)

  unfoldable pub caps : D → D → Db D → Caps D
  caps balance reference db = record {
    target =
        reference
        ⊗ cfg.risk.max_per_order
        ⊗ c.to_decimal (ratio_of (regime_config cfg.regimes x.indicators.regime));
    cash = available_cash cfg.risk balance;
    exposure = reference ⊗ cfg.risk.max_total_exposure ⊖ get_total_exposure x.env db;
  }

  unfoldable pub invest_amount : Caps D → D
  invest_amount k = min_of (min_of k.target k.cash) k.exposure

  abbrev pub buy_order : D → Order D
  buy_order quantity = record {
    symbol = x.symbol;
    side = buy;
    price = price;
    quantity = quantity;
    info = record { regime = some x.indicators.regime; new_hwm = none; exit_reason = none };
    ai = verdict x.answer;
    now = x.env.now;
    default_balance = cfg.default_balance;
  }

  -- The check reads the reference equity that the sizing has just cached.
  abbrev pub env_after : Option D → Env D
  env_after cached = record x.env { cached_reference = or_else cached x.env.cached_reference }

  -- `get_position`
  abbrev pub position_info : Position D → PositionInfo D
  position_info p = record {
    avg_price = p.avg_price;
    opened_at = some p.opened_at;
    regime = p.regime;
    high_water_mark = p.high_water_mark;
  }

  abbrev mark_decimal : Option F → Option D
  mark_decimal none = none
  mark_decimal (some m) = some (c.to_decimal m)

  abbrev pub sell_order : Position D → Exit F → ExitReason → Order D
  sell_order p e reason = record {
    symbol = x.symbol;
    side = sell;
    price = price;
    quantity = p.quantity;
    info = record {
      regime = p.regime;
      new_hwm = mark_decimal e.new_hwm;
      exit_reason = some reason;
    };
    ai = ok true;
    now = x.env.now;
    default_balance = cfg.default_balance;
  }

  -- `(current_price - pos["avg_price"]) * pos["quantity"]`
  abbrev pub profit : Position D → D
  profit p = (price ⊖ p.avg_price) ⊗ p.quantity

module _ {D F S : Type 0} ⦃d : Number D⦄ ⦃f : Number F⦄ ⦃c : Convert D F⦄ (r : Redis S)
    (cfg : BotConfig D F) (x : Round D F) where
  abbrev State : Type 0
  State = Db D × Option S

  -- The executor tells the guardrails what the agents have answered, if they have.
  abbrev pub told : Result (Bool × String) → Option S → Option S
  told (raise _) s = s
  told (ok (approved, reasoning)) s =
      update_ai_guardrails_after_decision r (second cfg x) s x.symbol approved reasoning
        (cfg.guard x.indicators.regime)

  abbrev finish_buy : Bool × Db D → Option S → Action × State
  finish_buy (true, db) s = (bought, (update_after_trade cfg.risk x.env (whole 0) buy db, s))
  finish_buy (false, db) s = (buy_failed, (db, s))

  -- The order, once the risk manager has let its amount through.
  unfoldable pub place_buy : D → State → Action × State
  place_buy quantity (db, s) =
      elim (should_run_ai_analysis x.indicators.regime x.features x.context_len
        (cfg.prefilter x.indicators.regime)) [
          | some skip ↦ (prefiltered skip, (db, s))
          | none ↦
              elim (should_block_ai_call r (second cfg x) s x.symbol
                (cfg.guard x.indicators.regime)) [
                  | some block ↦ (guarded block, (db, s))
                  | none ↦
                      finish_buy (execute_order (buy_order cfg x quantity) db)
                        (told x.answer (mark_ai_call_started r (second cfg x) s))
                ]
        ]

  abbrev sized : Option D → State → Action × State
  sized none (db, s) = (failed zero_division, (db, s))
  sized (some quantity) (db, s) =
      let placed = place_buy quantity (db, s) in
      if whole 0 ≺ quantity then placed else (quantity_zero, (db, s))

  abbrev checked_buy : D → Checked D → Option S → Action × State
  checked_buy amount (checked) s = elim checked.rejection [
    | some why ↦ (risk_rejected why, (checked.db, s))
    | none ↦ sized (amount ⊘ price cfg x) (checked.db, s)
  ]

  unfoldable pub try_buy : D → State → Action × State
  try_buy balance (db, s) =
      let (reference, cached) = get_reference_equity x.env db in
      let amount = invest_amount cfg x (caps cfg x balance reference db) in
      let checked = check_order_validity cfg.risk (env_after cfg x cached) x.symbol amount db in
      if amount ≼ whole 0 then (amount_zero, (db, s)) else checked_buy amount checked s

  abbrev with_balance : Result D × Db D → Option S → Action × State
  with_balance (raise e, db) s = (failed e, (db, s))
  with_balance (ok balance, db) s = try_buy balance (db, s)

  -- No position: is there an entry?
  unfoldable pub entry_round : State → Action × State
  entry_round (db, s) =
      if check_entry_signal cfg.regimes x.indicators
      then with_balance (get_balance cfg.default_balance db) s
      else (no_signal, (db, s))

  abbrev finish_sell : Position D → ExitReason → Bool × Db D → Option S → Action × State
  finish_sell p reason (true, db) s =
      (sold reason, (update_after_trade cfg.risk x.env (profit cfg x p) sell db, s))
  finish_sell p reason (false, db) s = (sell_failed reason, (db, s))

  -- The mark of a position that stays: only where there is Redis, and a mark that is not 0.
  abbrev raise_mark : Position D → Option F → Option S → Db D → Db D
  raise_mark p none s db = db
  raise_mark p (some m) none db = db
  raise_mark p (some m) (some s) db = if m ≈ f.lit 0 0 then db else record db {
    positions = insert x.symbol (record p { high_water_mark = some (c.to_decimal m) }) db.positions;
  }

  abbrev after_exit_signal : Position D → Result (Exit F) → State → Action × State
  after_exit_signal p (raise e) st = (failed e, st)
  after_exit_signal p (ok e) (db, s) = elim e.reason [
    | none ↦ (hold, (raise_mark p e.new_hwm s db, s))
    | some reason ↦ finish_sell p reason (execute_order (sell_order cfg x p e reason) db) s
  ]

  -- A position: is there an exit?
  unfoldable pub exit_round : Position D → State → Action × State
  exit_round p st =
      after_exit_signal p
        (check_exit_signal cfg.regimes x.indicators.regime (some x.close) x.indicators.rsi
          (position_info cfg x p) x.env.now)
        st

  abbrev by_position : Option (Position D) → State → Action × State
  by_position none st = entry_round st
  by_position (some p) st = exit_round p st

  unfoldable pub symbol_round : State → Action × State
  symbol_round (db, s) =
      if ltb x.candles 40
      then (waiting, (db, s))
      else if ltb 120_000_000 x.age
      then (stale, (db, s))
      else by_position (lookup x.symbol db.positions) (db, s)
