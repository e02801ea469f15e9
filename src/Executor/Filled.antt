-- ===== src/Executor/Filled.antt =====
-- What a filled order has done.
use coin_pilot.Base.{
  ◌≡◌, true, false, Option, none, some, [], ◌∷◌, ◌++◌, arith, Option-cases, get_or, inl, inr,
  Bool-cases, if◌then◌else◌,
}
use coin_pilot.Base.Dict.{lookup, insert, lookup-insert_self, lookup-erase_self}
use coin_pilot.Base.Result.{ok, Result-cases}
use coin_pilot.Number.{Number, ◌⊕◌, ◌⊖◌, ◌⊗◌, ◌≺◌, ◌≈◌}
use coin_pilot.Store.{Db, Position, Side, buy, sell}
use coin_pilot.Executor.{
  Order, average, bigger, opened, reduced, raised_mark, history_of, execute_buy, execute_sell,
  execute_order, order_body,
}
use coin_pilot.Executor.Effects.{with_account}

module _ {D : Type 0} ⦃d : Number D⦄ (o : Order D) where
  -- The account before and after.
  abbrev pub AccountAfter : Side → D → Option D → Type 0
  AccountAfter buy b c =
      (o.ai ≡ ok true)
      × ((b ≺ o.price ⊗ o.quantity) ≡ false)
      × (c ≡ some (b ⊖ o.price ⊗ o.quantity))
  AccountAfter sell b c = c ≡ some (b ⊕ o.price ⊗ o.quantity)

  -- The position of the symbol before and after.
  abbrev pub PositionAfter : Side → Option (Position D) → Option (Position D) → Type 0
  PositionAfter buy none q = q ≡ some (opened o)
  PositionAfter buy (some p) q =
      (avg : D) × (m : D) × (average o p ≡ ok avg)
      × (raised_mark o.price p.high_water_mark ≡ ok m)
      × (q ≡ some (record (bigger o p avg) { high_water_mark = some m }))
  PositionAfter sell none q = ⊥
  PositionAfter sell (some p) q =
      ((p.quantity ≺ o.quantity) ≡ false)
      × (q ≡ (if p.quantity ≈ o.quantity then none else some (reduced o p)))

  pub record Filled (db db' : Db D) : Type 0 where
    pub account : AccountAfter o.side (get_or db.account o.default_balance) db'.account
    pub position :
        PositionAfter o.side (lookup o.symbol db.positions) (lookup o.symbol db'.positions)
    pub history : db'.trading_history ≡ db.trading_history ++ history_of o ∷ []
    pub daily : db'.daily_risk_state ≡ db.daily_risk_state

  record Branch (side : Side) (b : D) (db db' : Db D) : Type 0 where
    position : PositionAfter side (lookup o.symbol db.positions) (lookup o.symbol db'.positions)
    covered : side ≡ buy → (b ≺ o.price ⊗ o.quantity) ≡ false
    account :
        db'.account
        ≡ some (elim side [ buy ↦ b ⊖ o.price ⊗ o.quantity | sell ↦ b ⊕ o.price ⊗ o.quantity ])
    history : db'.trading_history ≡ db.trading_history
    daily : db'.daily_risk_state ≡ db.daily_risk_state

  buy-Branch :
      (b : D) (db : Db D)
      → (execute_buy o b db).0 ≡ ok true
      → Branch buy b db (execute_buy o b db).1
  unfolding execute_buy
  buy-Branch b db e = elim (Option-cases (lookup o.symbol db.positions)) [
    | inl new ↦ ground (arith, new, lookup-insert_self o.symbol (opened o) db.positions)
    | inr (p, old) ↦ elim (Result-cases (average o p)) [
      | inl (x, failed) ↦ ground (arith, old, failed)
      | inr (avg, done) ↦ elim (Result-cases (raised_mark o.price p.high_water_mark)) [
        | inl (x, failed) ↦ ground (arith, old, done, failed)
        | inr (m, marked) ↦
            let q = bigger o p avg in
            record {
              position = rw old (
                avg,
                m,
                done,
                marked,
                ground (
                  arith,
                  old,
                  done,
                  marked,
                  lookup-insert_self o.symbol (record q { high_water_mark = some m })
                      (insert o.symbol q db.positions),
                ),
              );
              covered = λ _. ground arith;
              account = ground (arith, old, done, marked);
              history = ground (arith, old, done, marked);
              daily = ground (arith, old, done, marked);
            }
      ]
    ]
  ]

  sell-Branch :
      (b : D) (db : Db D)
      → (execute_sell o b db).0 ≡ ok true
      → Branch sell b db (execute_sell o b db).1
  unfolding execute_sell
  sell-Branch b db e = elim (Option-cases (lookup o.symbol db.positions)) [
    | inl new ↦ ground (arith, new)
    | inr (p, old) ↦ elim (Bool-cases (p.quantity ≺ o.quantity)) [
      | inl short ↦ ground (arith, old, short)
      | inr enough ↦ elim (Bool-cases (p.quantity ≈ o.quantity)) [
        | inl whole_ ↦ ground (arith, old, enough, whole_, lookup-erase_self o.symbol db.positions)
        | inr part ↦
            ground
              (arith, old, enough, part, lookup-insert_self o.symbol (reduced o p) db.positions)
      ]
    ]
  ]

  -- An order that ends with `true` was approved if it is a BUY. The balance, or the default one of
  -- a new account, covered a BUY and is debited, or is credited by a SELL. A BUY has opened the
  -- position, or made it bigger at the averaged price with the higher mark; a SELL had the
  -- quantity, and has removed the position or reduced it. One line of history is added, and no row of a day is changed.
  pub execute_order-Filled :
      (db : Db D) → (execute_order o db).0 ≡ true → Filled db (execute_order o db).1
  unfolding execute_order order_body
  execute_order-Filled db e =
      let b = get_or db.account o.default_balance in
      let db' = with_account o.default_balance db in
      ground (arith, buy-Branch b db', sell-Branch b db')
