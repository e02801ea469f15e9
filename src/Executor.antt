-- ===== src/Executor.antt =====
-- `PaperTradingExecutor` of src/engine/executor.py. What was written before an exception stays in
-- the session, and the session is committed later: so a call returns the tables beside its result.
mod Session
pub mod Effects
pub mod Atomic
pub mod Filled
mod Tests
unfoldable pub use Session.*
use coin_pilot.Base.{
  ℕ, Bool, true, false, Option, none, some, List, [], ◌∷◌, ◌++◌, if◌then◌else◌, get_or,
}
use coin_pilot.Base.Dict.{lookup, insert, erase}
use coin_pilot.Base.Result.{Result, ok, raise, type_error, zero_division, or_raise}
use coin_pilot.Number.{Number, ◌⊕◌, ◌⊖◌, ◌⊗◌, ◌⊘◌, ◌≺◌, ◌≈◌, whole}
use coin_pilot.Store.{Db, Position, TradingHistory, Side, buy, sell}
use coin_pilot.Strategy.Config.{Regime}
use coin_pilot.Strategy.Exit.{ExitReason}

-- What the executor reads of `signal_info`.
pub record SignalInfo (D : Type 0) : Type 0 where
  pub regime : Option Regime
  pub new_hwm : Option D
  pub exit_reason : Option ExitReason

-- An order. `ai` is what the AI agents answer to a BUY, with the update of the guardrails behind
-- it: approved or not, or an exception. `default_balance` is the balance of a new account.
pub record Order (D : Type 0) : Type 0 where
  pub symbol : ℕ
  pub side : Side
  pub price : D
  pub quantity : D
  pub info : SignalInfo D
  pub ai : Result Bool
  pub now : ℕ
  pub default_balance : D

-- Only a BUY asks the AI agents.
abbrev pub approval : Side → Result Bool → Result Bool
approval buy ai = ai
approval sell ai = ok true

-- `except Exception: return False`
abbrev pub caught : Result Bool → Bool
caught (ok b) = b
caught (raise _) = false

module _ {D : Type 0} ⦃d : Number D⦄ where
  -- `get_balance`: a missing account is created.
  unfoldable pub get_balance : D → Exec D D
  get_balance default db =
      let b = get_or db.account default in (ok b, record db { account = some b })

  unfoldable pub set_balance : D → Exec D Unit
  set_balance b db = (ok tt, record db { account = some b })

  unfoldable pub set_position : ℕ → Position D → Exec D Unit
  set_position symbol p db = (ok tt, record db { positions = insert symbol p db.positions })

  unfoldable pub delete_position : ℕ → Exec D Unit
  delete_position symbol db = (ok tt, record db { positions = erase symbol db.positions })

  unfoldable pub add_history : TradingHistory D → Exec D Unit
  add_history h db = (ok tt, record db { trading_history = db.trading_history ++ h ∷ [] })

  -- `price if price > existing_pos.high_water_mark else existing_pos.high_water_mark`
  abbrev pub raised_mark : D → Option D → Result D
  raised_mark price none = raise type_error
  raised_mark price (some m) = ok (if m ≺ price then price else m)

  -- `(avg_price * quantity + price * new quantity) / new_qty`
  abbrev pub average : Order D → Position D → Result D
  average o p =
      or_raise ((p.avg_price ⊗ p.quantity ⊕ o.price ⊗ o.quantity) ⊘ (p.quantity ⊕ o.quantity))
        zero_division

  abbrev pub bigger : Order D → Position D → D → Position D
  bigger o p avg = record p {
    quantity = p.quantity ⊕ o.quantity;
    avg_price = avg;
    regime = o.info.regime;
  }

  -- More of a position: the fields are set one after the other.
  unfoldable pub add_to_position : Order D → Position D → Exec D Unit
  unfolding set_position
  add_to_position o p = do
    avg ← lift (average o p)
    set_position o.symbol (bigger o p avg)
    mark ← lift (raised_mark o.price p.high_water_mark)
    set_position o.symbol (record (bigger o p avg) { high_water_mark = some mark })

  abbrev pub opened : Order D → Position D
  opened o = record {
    quantity = o.quantity;
    avg_price = o.price;
    regime = o.info.regime;
    high_water_mark = some o.price;
    opened_at = o.now;
  }

  abbrev pub reduced : Order D → Position D → Position D
  reduced o p = record p { quantity = p.quantity ⊖ o.quantity }

  -- The whole position is sold, or a part of it.
  abbrev reduce_position : Order D → Position D → Bool → Exec D Unit
  reduce_position o p true db = delete_position o.symbol db
  reduce_position o p false db = set_position o.symbol (reduced o p) db

  unfoldable pub open_position : Order D → Exec D Unit
  unfolding set_position
  open_position o = set_position o.symbol (opened o)

  -- The BUY branch; `false` is its early `return False`.
  unfoldable pub execute_buy : Order D → D → Exec D Bool
  unfolding set_balance add_to_position open_position
  execute_buy o balance =
      let order_amount = o.price ⊗ o.quantity in
      if balance ≺ order_amount then pure false else do
        set_balance (balance ⊖ order_amount)
        existing ← gets (λ db. lookup o.symbol db.positions)
        elim existing [ none ↦ open_position o | some p ↦ add_to_position o p ]
        pure true

  -- The SELL branch.
  unfoldable pub execute_sell : Order D → D → Exec D Bool
  unfolding set_balance set_position delete_position
  execute_sell o balance = do
    existing ← gets (λ db. lookup o.symbol db.positions)
    elim existing [
      | none ↦ pure false
      | some p ↦ if p.quantity ≺ o.quantity then pure false else do
        set_balance (balance ⊕ o.price ⊗ o.quantity)
        reduce_position o p (p.quantity ≈ o.quantity)
        pure true
    ]

  -- `signal_info.get("new_hwm") or price`
  abbrev pub or_price : Option D → D → D
  or_price none price = price
  or_price (some m) price = if m ≈ whole 0 then price else m

  abbrev exit_reason_of : Side → SignalInfo D → Option ExitReason
  exit_reason_of buy info = none
  exit_reason_of sell info = info.exit_reason

  abbrev pub history_of : Order D → TradingHistory D
  history_of o = record {
    symbol = o.symbol;
    side = o.side;
    price = o.price;
    quantity = o.quantity;
    regime = o.info.regime;
    high_water_mark = or_price o.info.new_hwm o.price;
    exit_reason = exit_reason_of o.side o.info;
    executed_at = o.now;
  }

  abbrev branch : Side → Order D → D → Exec D Bool
  branch buy = execute_buy
  branch sell = execute_sell

  -- The end of a filled order.
  unfoldable pub record_fill : Order D → Bool → Exec D Bool
  unfolding add_history
  record_fill o false = pure false
  record_fill o true = add_history (history_of o) >> pure true

  -- The tables are touched only after the approval.
  unfoldable pub fill : Order D → Bool → Exec D Bool
  unfolding get_balance record_fill
  fill o false = pure false
  fill o true = do
    balance ← get_balance o.default_balance
    filled ← branch o.side o balance
    record_fill o filled

  -- The body of the `try`.
  unfoldable pub order_body : Order D → Exec D Bool
  unfolding fill
  order_body o = do approved ← lift (approval o.side o.ai); fill o approved

  unfoldable pub execute_order : Order D → Db D → Bool × Db D
  execute_order o db = let (r, db') = order_body o db in (caught r, db')
