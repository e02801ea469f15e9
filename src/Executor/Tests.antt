-- ===== src/Executor/Tests.antt =====
-- The paper trading executor on concrete inputs. A number x is written `n (10000 * x)`.
use coin_pilot.Base.{ℕ, ap, ◌≡◌, ◌≢◌, refl, arith, true, false, Option, none, some, [], ◌∷◌}
use coin_pilot.Base.Dict.{lookup, insert}
use coin_pilot.Base.Int.{ℤ, pos, ◌-ℤ◌, ◌+ℤ◌, ◌*ℤ◌}
use coin_pilot.Base.Result.{ok}
use coin_pilot.Number.Fixed.{fixed, fixed-IsOrdered, fixed-IsSigned}
use coin_pilot.Store.{Db, Position, Side, buy, sell}
use coin_pilot.Strategy.Config.{Regime}
use coin_pilot.Executor.{
  Order, get_balance, set_balance, set_position, add_history, add_to_position, open_position,
  execute_buy, execute_sell, record_fill, fill, order_body, execute_order, bigger,
}
use coin_pilot.Executor.Effects.{IsSound, IsPlaceable, order_others, order-IsSound}
use coin_pilot.Executor.Atomic.{Untouched, Explained, unfilled-Untouched, unfilled-Explained}
use coin_pilot.Executor.Filled.{Filled, execute_order-Filled}

abbrev order : Side → ℤ → Order ℤ
order side quantity = record {
  symbol = 7;
  side = side;
  price = pos 1_000_000;
  quantity = quantity;
  info = record { regime = some Regime.bull; new_hwm = none; exit_reason = none };
  ai = ok true;
  now = 5;
  default_balance = pos 100_000_000;
}

abbrev held : Option ℤ → Position ℤ
held mark = record {
  quantity = pos 20_000;
  avg_price = pos 900_000;
  regime = none;
  high_water_mark = mark;
  opened_at = 1;
}

-- 500 in cash, and two coins bought at 90.
abbrev tables : Option ℤ → Db ℤ
tables mark = record {
  account = some (pos 5_000_000);
  positions = (7, held mark) ∷ [];
  daily_risk_state = [];
  trading_history = [];
}

held-IsPositive :
    (k : ℕ) (p : Position ℤ)
    → lookup k (tables (some (pos 950_000))).positions ≡ some p
    → fixed.lt (pos 0) p.quantity ≡ true
unfolding lookup
held-IsPositive k p e = ground arith

tables-IsSound : IsSound (tables (some (pos 950_000)))
tables-IsSound = record { account = λ b e. ground arith; held = held-IsPositive }

order-IsPlaceable : (side : Side) → IsPlaceable (order side (pos 10_000))
order-IsPlaceable side = record { price = refl; quantity = refl; default_balance = refl }

-- One more coin at 100 makes an average of 93.3333.
bought : (execute_order (order buy (pos 10_000)) (tables (some (pos 950_000)))).0 ≡ true
unfolding execute_order order_body fill get_balance execute_buy set_balance set_position
    add_to_position open_position record_fill add_history lookup ◌+ℤ◌ ◌-ℤ◌ ◌*ℤ◌
bought = refl

bought_position :
    lookup 7 (execute_order (order buy (pos 10_000)) (tables (some (pos 950_000)))).1.positions
    ≡ some (record {
      quantity = pos 30_000;
      avg_price = pos 933_333;
      regime = some Regime.bull;
      high_water_mark = some (pos 1_000_000);
      opened_at = 1;
    })
unfolding execute_order order_body fill get_balance execute_buy set_balance set_position
    add_to_position open_position record_fill add_history lookup insert ◌+ℤ◌ ◌-ℤ◌ ◌*ℤ◌
bought_position = refl

refused : (execute_order (order sell (pos 30_000)) (tables (some (pos 950_000)))).0 ≡ false
unfolding execute_order order_body fill get_balance execute_sell record_fill lookup
refused = refl

order_others_example :
    lookup 8 (execute_order (order sell (pos 10_000)) (tables none)).1.positions
    ≡ lookup 8 (tables none).positions
order_others_example = order_others (order sell (pos 10_000)) (tables none) 8 refl

order-IsSound_example :
    IsSound (execute_order (order sell (pos 10_000)) (tables (some (pos 950_000)))).1
order-IsSound_example =
    order-IsSound fixed-IsOrdered fixed-IsSigned (order sell (pos 10_000))
      (tables (some (pos 950_000))) (order-IsPlaceable sell) tables-IsSound

has_mark :
    (p : Position ℤ)
    → lookup 7 (tables (some (pos 950_000))).positions ≡ some p
    → p.high_water_mark ≢ none
unfolding lookup
has_mark p e f = ground arith

big-IsPlaceable : IsPlaceable (order sell (pos 30_000))
big-IsPlaceable = record { price = refl; quantity = refl; default_balance = refl }

unfilled-Untouched_example :
    Untouched
      (order sell (pos 30_000))
      (tables (some (pos 950_000)))
      (execute_order (order sell (pos 30_000)) (tables (some (pos 950_000)))).1
unfilled-Untouched_example =
    unfilled-Untouched fixed-IsOrdered fixed-IsSigned (order sell (pos 30_000))
      (tables (some (pos 950_000))) big-IsPlaceable tables-IsSound has_mark refused

execute_order-Filled_example :
    Filled
      (order buy (pos 10_000))
      (tables (some (pos 950_000)))
      (execute_order (order buy (pos 10_000)) (tables (some (pos 950_000)))).1
execute_order-Filled_example =
    execute_order-Filled (order buy (pos 10_000)) (tables (some (pos 950_000))) bought

-- The mark is missing: the account is debited and the position bigger, and the order ends with
-- `false`.
unmarked_debits : execute_order (order buy (pos 10_000)) (tables none) ≡ (
  false,
  record (tables none) {
    account = some (pos 4_000_000);
    positions =
        insert 7
          (bigger (order buy (pos 10_000)) (held none) (pos 933_333))
          (tables none).positions;
  },
)
unfolding execute_order ◌+ℤ◌ ◌-ℤ◌ ◌*ℤ◌ lookup order_body execute_buy
unmarked_debits = refl

unfilled-Explained_example :
    Explained
      (order buy (pos 10_000))
      (tables none)
      (execute_order (order buy (pos 10_000)) (tables none)).1
unfilled-Explained_example =
    unfilled-Explained (order buy (pos 10_000)) (tables none) (ap (λ r. r.0) unmarked_debits)
