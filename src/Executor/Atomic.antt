-- ===== src/Executor/Atomic.antt =====
-- What an order that is not filled leaves of the tables (src/engine/executor.py).
use coin_pilot.Base.{
  ◌≡◌, ◌≢◌, ◌⊎◌, inl, inr, Bool, true, false, none, some, refl, arith, Option-cases, Bool-cases,
  get_or,
}
use coin_pilot.Base.Dict.{lookup, insert, lookup-insert_self}
use coin_pilot.Base.Result.{Result, ok, raise, type_error, Result-cases}
use coin_pilot.Number.{Number, ◌⊕◌, ◌⊖◌, ◌⊗◌, ◌⊘◌, ◌≺◌, whole}
use coin_pilot.Number.Order.{IsOrdered, IsSigned, pos-ne}
use coin_pilot.Store.{Db, Position, Side, buy, sell}
use coin_pilot.Executor.{
  Order, average, bigger, execute_buy, execute_sell, execute_order, order_body,
}
use coin_pilot.Executor.Effects.{IsSound, IsPlaceable, with_account, with_account-IsSound}

Side-cases : (s : Side) → (s ≡ buy) ⊎ (s ≡ sell)
Side-cases buy = inl refl
Side-cases sell = inr refl

Approved-cases : (r : Result Bool) → (r ≡ ok true) ⊎ (r ≢ ok true)
Approved-cases (ok true) = inl refl
Approved-cases (ok false) = inr (λ e. ground (arith, e))
Approved-cases (raise x) = inr (λ e. ground (arith, e))

module _ {D : Type 0} ⦃d : Number D⦄ where
  -- What an order that ends with `false` leaves.
  pub record Untouched (o : Order D) (db db' : Db D) : Type 0 where
    pub positions : db'.positions ≡ db.positions
    pub history : db'.trading_history ≡ db.trading_history
    pub daily : db'.daily_risk_state ≡ db.daily_risk_state
    pub account :
        (db'.account ≡ db.account) ⊎ (db'.account ≡ some (get_or db.account o.default_balance))

  average_defined :
      IsOrdered D
      → IsSigned D
      → (o : Order D) (p : Position D) → (whole 0 ≺ p.quantity) ≡ true
      → (whole 0 ≺ o.quantity) ≡ true
      → (avg : D) × (average o p ≡ ok avg)
  average_defined or si o p hp ho =
      let total = p.quantity ⊕ o.quantity in
      let (q, e) =
        or.div_defined (p.avg_price ⊗ p.quantity ⊕ o.price ⊗ o.quantity) total
          (pos-ne or total (si.add_pos p.quantity o.quantity hp ho)) in
      (q, rw e)

  buy_unfilled :
      IsOrdered D
      → IsSigned D
      → (o : Order D) (b : D) (db : Db D) → IsPlaceable o
      → IsSound db
      → ((p : Position D) → lookup o.symbol db.positions ≡ some p → p.high_water_mark ≢ none)
      → ((execute_buy o b db).0 ≡ ok true) ⊎ (execute_buy o b db ≡ (ok false, db))
  unfolding execute_buy
  buy_unfilled or si o b db pl h known = elim (Option-cases (lookup o.symbol db.positions)) [
    | inl new ↦ ground (arith, new)
    | inr (p, old) ↦
        let (avg, done) = average_defined or si o p (h.held o.symbol p old) pl.quantity in
        ground (arith, old, done, known p)
  ]

  sell_unfilled :
      (o : Order D) (b : D) (db : Db D)
      → ((execute_sell o b db).0 ≡ ok true) ⊎ (execute_sell o b db ≡ (ok false, db))
  unfolding execute_sell
  sell_unfilled o b db = ground arith

  -- For an order with a price of at least zero, a positive quantity and a default balance of at
  -- least zero, from tables with no debt and no empty position, and where an open position of the
  -- symbol has a high water mark: an order that ends with `false` has changed no position, no
  -- history and no row of a day; the account is as it was, or was created with the default balance.
  pub unfilled-Untouched :
      IsOrdered D
      → IsSigned D
      → (o : Order D) (db : Db D) → IsPlaceable o
      → IsSound db
      → ((p : Position D) → lookup o.symbol db.positions ≡ some p → p.high_water_mark ≢ none)
      → (execute_order o db).0 ≡ false
      → Untouched o db (execute_order o db).1
  unfolding execute_order order_body
  unfilled-Untouched or si o db pl h known e =
      let b = get_or db.account o.default_balance in
      let db' = with_account o.default_balance db in
      let h' = with_account-IsSound o db pl h in
      ground (arith, buy_unfilled or si o b db' pl h' known, sell_unfilled o b db')

  -- Why a BUY of more of a position raises: the average divides by zero, and no position is changed;
  -- or the price is compared with no high water mark, and the position has the new quantity.
  abbrev pub Cause : Order D → Position D → Db D → Db D → Type 0
  Cause o p db db' =
      (((p.avg_price ⊗ p.quantity ⊕ o.price ⊗ o.quantity) ⊘ (p.quantity ⊕ o.quantity) ≡ none)
        × (db'.positions ≡ db.positions))
      ⊎ ((p.high_water_mark ≡ none)
          × ((q : Position D) × (lookup o.symbol db'.positions ≡ some q)
              × (q.quantity ≡ p.quantity ⊕ o.quantity)
              × (q.high_water_mark ≡ none)))

  -- What a BUY of more of the position `p` leaves that raises, from a balance of `b`.
  pub record Debited (o : Order D) (b : D) (p : Position D) (db db' : Db D) : Type 0 where
    pub account : db'.account ≡ some (b ⊖ o.price ⊗ o.quantity)
    pub history : db'.trading_history ≡ db.trading_history
    pub daily : db'.daily_risk_state ≡ db.daily_risk_state
    pub cause : Cause o p db db'

  -- Nothing but a missing account, or an approved and covered BUY that raised.
  abbrev pub Explained : Order D → Db D → Db D → Type 0
  Explained o db db' =
      Untouched o db db'
      ⊎ ((o.side ≡ buy)
          × (o.ai ≡ ok true)
          × ((get_or db.account o.default_balance ≺ o.price ⊗ o.quantity) ≡ false)
          × ((p : Position D) × (lookup o.symbol db.positions ≡ some p)
              × Debited o (get_or db.account o.default_balance) p db db'))

  buy_short :
      (o : Order D) (b : D) (db : Db D)
      → (b ≺ o.price ⊗ o.quantity) ≡ true
      → execute_buy o b db ≡ (ok false, db)
  unfolding execute_buy
  buy_short o b db h = ground (arith, h)

  buy_opens :
      (o : Order D) (b : D) (db : Db D)
      → lookup o.symbol db.positions ≡ none
      → (b ≺ o.price ⊗ o.quantity) ≡ false
      → (execute_buy o b db).0 ≡ ok true
  unfolding execute_buy
  buy_opens o b db new cover = ground (arith, new, cover)

  unmarked_leaves :
      (o : Order D) (b avg : D) (db : Db D) (p : Position D)
      → lookup o.symbol db.positions ≡ some p
      → (b ≺ o.price ⊗ o.quantity) ≡ false
      → average o p ≡ ok avg
      → p.high_water_mark ≡ none
      → execute_buy o b db ≡ (
        raise type_error,
        record db {
          account = some (b ⊖ o.price ⊗ o.quantity);
          positions = insert o.symbol (bigger o p avg) db.positions;
        },
      )
  unfolding execute_buy
  unmarked_leaves o b avg db p old cover done unmarked = ground (arith, old, cover, done, unmarked)

  -- The outcomes of a covered BUY of more of a position.
  added :
      (o : Order D) (b : D) (db : Db D) (p : Position D)
      → lookup o.symbol db.positions ≡ some p
      → (b ≺ o.price ⊗ o.quantity) ≡ false
      → ((execute_buy o b db).0 ≡ ok true) ⊎ Debited o b p db (execute_buy o b db).1
  unfolding execute_buy
  added o b db p old cover = elim (Result-cases (average o p)) [
    | inl (x, failed) ↦ inr (record {
      account = ground (arith, old, cover, failed);
      history = ground (arith, old, cover, failed);
      daily = ground (arith, old, cover, failed);
      cause = inl (ground (arith, failed), ground (arith, old, cover, failed));
    })
    | inr (avg, done) ↦ elim (Option-cases p.high_water_mark) [
      | inl unmarked ↦ rw (unmarked_leaves o b avg db p old cover done unmarked) (
          inr (record {
            account = refl;
            history = refl;
            daily = refl;
            cause = inr (
              unmarked,
              (
                bigger o p avg,
                lookup-insert_self o.symbol (bigger o p avg) db.positions,
                refl,
                unmarked,
              ),
            );
          }))
      | inr (m, marked) ↦ inl (ground (arith, old, cover, done, marked))
    ]
  ]

  bought :
      (o : Order D) (b : D) (db : Db D)
      → ((execute_buy o b db).0 ≡ ok true)
        ⊎ (execute_buy o b db ≡ (ok false, db))
        ⊎ (((b ≺ o.price ⊗ o.quantity) ≡ false)
            × ((p : Position D) × (lookup o.symbol db.positions ≡ some p)
                × Debited o b p db (execute_buy o b db).1))
  bought o b db = elim (Bool-cases (b ≺ o.price ⊗ o.quantity)) [
    | inl short ↦ inr (inl (buy_short o b db short))
    | inr cover ↦ elim (Option-cases (lookup o.symbol db.positions)) [
      | inl new ↦ inl (buy_opens o b db new cover)
      | inr (p, old) ↦ elim (added o b db p old cover) [
        | inl done ↦ inl done
        | inr left ↦ inr (inr (cover, (p, old, left)))
      ]
    ]
  ]

  -- An approved BUY that ends with `false` leaves what `execute_buy` leaves.
  order_left :
      (o : Order D) (db : Db D)
      → o.side ≡ buy
      → o.ai ≡ ok true
      → (execute_order o db).0 ≡ false
      → let db' = with_account o.default_balance db in
        let end = execute_buy o (get_or db.account o.default_balance) db' in
        (end.0 ≢ ok true) × ((execute_order o db).1 ≡ end.1)
  unfolding execute_order order_body
  order_left o db side ai e = ground (arith, side, ai, e)

  sell_left :
      (o : Order D) (db : Db D)
      → o.side ≡ sell
      → (execute_order o db).0 ≡ false
      → Untouched o db (execute_order o db).1
  unfolding execute_order order_body
  sell_left o db side e =
      let b = get_or db.account o.default_balance in
      let db' = with_account o.default_balance db in ground (arith, side, e, sell_unfilled o b db')

  unapproved_left :
      (o : Order D) (db : Db D)
      → o.side ≡ buy
      → o.ai ≢ ok true
      → Untouched o db (execute_order o db).1
  unfolding execute_order order_body
  unapproved_left o db side refused = ground (arith, side, refused)

  -- An order that ends with `false` has left the tables as they were but for a missing account, or
  -- is an approved and covered BUY of more of an open position, which raised after the account was
  -- debited: then there is no history and no row of a day for the debit, and either the average
  -- divided by zero and no position is changed, or the position has no high water mark and its
  -- quantity is raised all the same.
  pub unfilled-Explained :
      (o : Order D) (db : Db D)
      → (execute_order o db).0 ≡ false
      → Explained o db (execute_order o db).1
  unfilled-Explained o db e = elim (Side-cases o.side) [
    | inr side ↦ inl (sell_left o db side e)
    | inl side ↦ elim (Approved-cases o.ai) [
      | inr refused ↦ inl (unapproved_left o db side refused)
      | inl ai ↦
          let b = get_or db.account o.default_balance in
          let db' = with_account o.default_balance db in
          let (unfilled, left) = order_left o db side ai e in
          rw left (elim (bought o b db') [
            | inl filled ↦ absurd (unfilled filled)
            | inr (inl short) ↦ inl (ground (arith, short))
            | inr (inr (cover, (p, old, d))) ↦ inr (
              side,
              ai,
              cover,
              (
                p,
                old,
                record {
                  account = d.account;
                  history = d.history;
                  daily = d.daily;
                  cause = d.cause;
                },
              ),
            )
          ])
    ]
  ]
