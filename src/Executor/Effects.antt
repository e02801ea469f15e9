-- ===== src/Executor/Effects.antt =====
-- What an order does to the account and the positions.
use coin_pilot.Base.{
  ℕ, ◌≡◌, true, false, some, ◌==◌, get_or, Bool-cases, eq_of_test, sym, ap, ◌∙◌, arith,
  Option-cases, inl, inr,
}
use coin_pilot.Base.Dict.{
  lookup, insert, lookup-insert_ne, lookup-erase_ne, lookup-insert_self, lookup-erase_self,
}
use coin_pilot.Base.Result.{Result-cases}
use coin_pilot.Number.{Number, ◌⊗◌, ◌≺◌, ◌≼◌, whole}
use coin_pilot.Number.Order.{IsOrdered, IsSigned, lt→le}
use coin_pilot.Store.{Db, Position}
use coin_pilot.Executor.{
  Order, opened, bigger, reduced, average, execute_buy, execute_sell, execute_order, order_body,
}

module _ {D : Type 0} ⦃d : Number D⦄ where
  -- No debt, and no position without a quantity.
  pub record IsSound (db : Db D) : Type 0 where
    pub account : (b : D) → db.account ≡ some b → (whole 0 ≼ b) ≡ true
    pub held :
        (k : ℕ) (p : Position D) → lookup k db.positions ≡ some p → (whole 0 ≺ p.quantity) ≡ true

  pub record IsPlaceable (o : Order D) : Type 0 where
    pub price : (whole 0 ≼ o.price) ≡ true
    pub quantity : (whole 0 ≺ o.quantity) ≡ true
    pub default_balance : (whole 0 ≼ o.default_balance) ≡ true

  -- An order leaves every other symbol alone.
  buy_others :
      (o : Order D) (b : D) (db : Db D) (k : ℕ)
      → (o.symbol == k) ≡ false
      → lookup k (execute_buy o b db).1.positions ≡ lookup k db.positions
  unfolding execute_buy
  buy_others o b db k ne = grind (arith, lookup-insert_ne)

  sell_others :
      (o : Order D) (b : D) (db : Db D) (k : ℕ)
      → (o.symbol == k) ≡ false
      → lookup k (execute_sell o b db).1.positions ≡ lookup k db.positions
  unfolding execute_sell
  sell_others o b db k ne = grind (arith, lookup-insert_ne, lookup-erase_ne)

  -- The position of the order's own symbol keeps a quantity, or is gone.
  buy_own :
      IsSigned D
      → (o : Order D) (b : D) (db : Db D) (p : Position D) → IsPlaceable o
      → IsSound db
      → lookup o.symbol (execute_buy o b db).1.positions ≡ some p
      → (whole 0 ≺ p.quantity) ≡ true
  unfolding execute_buy
  buy_own si o b db p pl h e = elim (Option-cases (lookup o.symbol db.positions)) [
    | inl new ↦
        ground (arith, new, pl.quantity, lookup-insert_self o.symbol (opened o) db.positions)
    | inr (p₀, old) ↦ elim (Result-cases (average o p₀)) [
      | inl (x, failed) ↦ ground (arith, old, failed, h.held o.symbol p₀)
      | inr (avg, done) ↦
          let q = bigger o p₀ avg in
          let m = insert o.symbol q db.positions in
          ground (
            arith,
            old,
            done,
            pl.quantity,
            h.held o.symbol p₀,
            si.add_pos p₀.quantity o.quantity,
            lookup-insert_self o.symbol q db.positions,
            lookup-insert_self o.symbol (record q { high_water_mark = some o.price }) m,
            lookup-insert_self o.symbol (record q { high_water_mark = p₀.high_water_mark }) m,
          )
    ]
  ]

  sell_own :
      IsOrdered D
      → IsSigned D
      → (o : Order D) (b : D) (db : Db D) (p : Position D) → IsSound db
      → lookup o.symbol (execute_sell o b db).1.positions ≡ some p
      → (whole 0 ≺ p.quantity) ≡ true
  unfolding execute_sell
  sell_own or si o b db p h e = elim (Option-cases (lookup o.symbol db.positions)) [
    | inl new ↦ grind (arith, new)
    | inr (p₀, old) ↦ ground (
      arith,
      old,
      h.held o.symbol p₀,
      lookup-insert_self o.symbol (reduced o p₀) db.positions,
      lookup-erase_self o.symbol db.positions,
      si.sub_pos p₀.quantity o.quantity,
      or.lt-eq-not-le p₀.quantity o.quantity,
      or.lt-eq-not-le o.quantity p₀.quantity,
      or.eq-eq-le p₀.quantity o.quantity,
    )
  ]

  buy_account :
      IsOrdered D
      → IsSigned D
      → (o : Order D) (b c : D) (db : Db D) → IsPlaceable o
      → (whole 0 ≼ b) ≡ true
      → db.account ≡ some b
      → (execute_buy o b db).1.account ≡ some c
      → (whole 0 ≼ c) ≡ true
  unfolding execute_buy
  buy_account or si o b c db pl h e f = ground (arith, si.sub_nonneg b (o.price ⊗ o.quantity))

  sell_account :
      IsOrdered D
      → IsSigned D
      → (o : Order D) (b c : D) (db : Db D) → IsPlaceable o
      → (whole 0 ≼ b) ≡ true
      → db.account ≡ some b
      → (execute_sell o b db).1.account ≡ some c
      → (whole 0 ≼ c) ≡ true
  unfolding execute_sell
  sell_account or si o b c db pl h e f = ground (
    arith,
    pl.price,
    lt→le or (whole 0) o.quantity pl.quantity,
    si.mul_nonneg o.price o.quantity,
    si.add_nonneg b (o.price ⊗ o.quantity),
  )

  abbrev pub with_account : D → Db D → Db D
  with_account default db = record db { account = some (get_or db.account default) }

  -- An order changes no position of another symbol, however it ends.
  pub order_others :
      (o : Order D) (db : Db D) (k : ℕ)
      → (o.symbol == k) ≡ false
      → lookup k (execute_order o db).1.positions ≡ lookup k db.positions
  unfolding execute_order order_body
  order_others o db k ne =
      let b = get_or db.account o.default_balance in
      let db' = with_account o.default_balance db in
      ground (arith, buy_others o b db' k ne, sell_others o b db' k ne)

  pub with_account-IsSound :
      (o : Order D) (db : Db D)
      → IsPlaceable o
      → IsSound db
      → IsSound (with_account o.default_balance db)
  with_account-IsSound o db pl h = record {
    account = λ b e. elim (Option-cases db.account) [
      | inl new ↦ ground (arith, new, pl.default_balance)
      | inr (a, old) ↦ ground (arith, old, h.account a)
    ];
    held = h.held;
  }

  order_own :
      IsOrdered D
      → IsSigned D
      → (o : Order D) (db : Db D) (p : Position D) → IsPlaceable o
      → IsSound db
      → lookup o.symbol (execute_order o db).1.positions ≡ some p
      → (whole 0 ≺ p.quantity) ≡ true
  unfolding execute_order order_body
  order_own or si o db p pl h e =
      let b = get_or db.account o.default_balance in
      let db' = with_account o.default_balance db in
      let h' = with_account-IsSound o db pl h in
      ground (arith, h.held o.symbol p, buy_own si o b db' p pl h', sell_own or si o b db' p h')

  order_account :
      IsOrdered D
      → IsSigned D
      → (o : Order D) (db : Db D) (c : D) → IsPlaceable o
      → IsSound db
      → (execute_order o db).1.account ≡ some c
      → (whole 0 ≼ c) ≡ true
  unfolding execute_order order_body
  order_account or si o db c pl h e =
      let b = get_or db.account o.default_balance in
      let db' = with_account o.default_balance db in
      let h' = with_account-IsSound o db pl h in
      ground (
        arith,
        h.account c,
        h'.account b,
        h'.account c,
        buy_account or si o b c db' pl,
        sell_account or si o b c db' pl,
      )

  -- For a price of zero or more, a positive quantity and a default balance of zero or more: from
  -- tables with no debt and no empty position, an order leaves no debt and no empty position,
  -- whichever its side, and whether it is filled, refused, rejected or ended by an exception.
  pub order-IsSound :
      IsOrdered D
      → IsSigned D
      → (o : Order D) (db : Db D) → IsPlaceable o
      → IsSound db
      → IsSound (execute_order o db).1
  order-IsSound or si o db pl h = record {
    account = λ c e. order_account or si o db c pl h e;
    held = λ k p e. elim (Bool-cases (o.symbol == k)) [
      | inl same_ ↦
          order_own or si o db p pl h
            (ap (λ j. lookup j (execute_order o db).1.positions) (eq_of_test o.symbol k same_) ∙ e)
      | inr other ↦ h.held k p (sym (order_others o db k other) ∙ e)
    ];
  }
