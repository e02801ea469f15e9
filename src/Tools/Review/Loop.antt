-- ===== src/Tools/Review/Loop.antt =====
-- The loop that matches a sale with the lots of its symbol, the first bought first.
use coin_pilot.Base.{
  ℕ, zero, suc, ◌-◌, ◌<◌, ◌≡◌, refl, true, false, ◌⊎◌, inl, inr, Bool-cases, Option, some, List, [],
  ◌∷◌, length, get_or, if◌then◌else◌, arith,
}
use coin_pilot.Number.{Number, lit, whole, ◌⊕◌, ◌⊖◌, ◌⊗◌, ◌⊘◌, ◌≺◌, ◌≼◌}
use coin_pilot.Number.Order.{IsOrdered, IsCancelling}

pub record OpenLot (F : Type 0) : Type 0 where
  pub remaining_qty : F
  pub entry_price : F
  pub opened_at : Option ℕ

pub record Match (F : Type 0) : Type 0 where
  pub lots : List (OpenLot F)
  pub remaining_sell : F
  pub matched : F
  pub pnl_krw : F
  pub weighted_pct : F
  pub weighted_hours : F

module _ {F : Type 0} ⦃n : Number F⦄ where
  abbrev pub start_match : F → List (OpenLot F) → Match F
  start_match qty lots = record {
    lots = lots;
    remaining_sell = qty;
    matched = whole 0;
    pnl_krw = whole 0;
    weighted_pct = whole 0;
    weighted_hours = whole 0;
  }

  abbrev smaller : F → F → F
  smaller a b = if b ≺ a then b else a

  -- Division by a positive number has a result.
  abbrev pct_of : F → F → F
  pct_of price entry =
      if whole 0 ≺ entry then get_or ((price ⊖ entry) ⊘ entry) (whole 0) ⊗ whole 100 else whole 0

  -- The hours from the purchase to the sale, none below zero, times the quantity.
  abbrev hours_of : Option ℕ → Option ℕ → F → F
  hours_of (some ts) (some opened) qty = get_or (lit (ts - opened) 6 ⊘ whole 3600) (whole 0) ⊗ qty
  hours_of _ _ qty = whole 0

  abbrev kept_lots : OpenLot F → List (OpenLot F) → F → List (OpenLot F)
  kept_lots lot rest left =
      if left ≼ lit 1 12 then rest else record lot { remaining_qty = left } ∷ rest

  -- One pass of the loop over a first lot.
  unfoldable pub match_lot : F → Option ℕ → OpenLot F → List (OpenLot F) → Match F → Match F
  match_lot price ts lot rest m =
      let taken = smaller m.remaining_sell lot.remaining_qty in
      record {
        lots = kept_lots lot rest (lot.remaining_qty ⊖ taken);
        remaining_sell = m.remaining_sell ⊖ taken;
        matched = m.matched ⊕ taken;
        pnl_krw = m.pnl_krw ⊕ (price ⊖ lot.entry_price) ⊗ taken;
        weighted_pct = m.weighted_pct ⊕ pct_of price lot.entry_price ⊗ taken;
        weighted_hours = m.weighted_hours ⊕ hours_of ts lot.opened_at taken;
      }

  -- `while remaining_sell > 1e-12 and lots`, for so many passes.
  unfoldable pub match_lots : ℕ → F → Option ℕ → Match F → Match F
  unfolding match_lot
  match_lots zero price ts m = m
  match_lots (suc fuel) price ts m = elim m.lots [
    | [] ↦ m
    | lot ∷ rest ↦ elim (lit 1 12 ≺ m.remaining_sell) [
      | false ↦ m
      | true ↦ match_lots fuel price ts (match_lot price ts lot rest m)
    ]
  ]

  -- The loop is over: no lot is left, or next to nothing is to be sold.
  abbrev pub Over : Match F → Type 0
  Over m = (m.lots ≡ []) ⊎ ((lit 1 12 ≺ m.remaining_sell) ≡ false)

  match_lot-shrinks :
      IsOrdered F
      → IsCancelling F
      → ◌≼◌ {W = F} (whole 0) (lit 1 12) ≡ true
      → (price : F) (ts : Option ℕ) (lot : OpenLot F) (rest : List (OpenLot F)) (m : Match F)
      → ((match_lot price ts lot rest m).lots ≡ rest)
        ⊎ ((lit 1 12 ≺ (match_lot price ts lot rest m).remaining_sell) ≡ false)
  unfolding match_lot
  match_lot-shrinks o can small price ts lot rest m = ground (
    arith,
    can.sub_self lot.remaining_qty,
    can.sub_self m.remaining_sell,
    o.le_trans (lot.remaining_qty ⊖ lot.remaining_qty) (whole 0) (lit 1 12),
    o.le_trans (m.remaining_sell ⊖ m.remaining_sell) (whole 0) (lit 1 12),
    o.lt-eq-not-le (lit 1 12) (m.remaining_sell ⊖ m.remaining_sell),
  )

  match_lots_done :
      (fuel : ℕ) (price : F) (ts : Option ℕ) (m : Match F) → Over m → match_lots fuel price ts m ≡ m
  unfolding match_lots
  match_lots_done zero price ts m over = refl
  match_lots_done (suc fuel) price ts m over = ground (arith, over)

  match_lots-next :
      (fuel : ℕ) (price : F) (ts : Option ℕ) (m : Match F) (lot : OpenLot F)
      (rest : List (OpenLot F))
      → m.lots ≡ lot ∷ rest
      → (lit 1 12 ≺ m.remaining_sell) ≡ true
      → match_lots (suc fuel) price ts m ≡ match_lots fuel price ts (match_lot price ts lot rest m)
  unfolding match_lots
  match_lots-next fuel price ts m lot rest e on = ground (arith, e, on)

  -- A pass for each lot and one more is enough: a pass uses up the first lot, or what is to be sold.
  pub match_lots-Over :
      IsOrdered F
      → IsCancelling F
      → ◌≼◌ {W = F} (whole 0) (lit 1 12) ≡ true
      → (lots : List (OpenLot F)) (fuel : ℕ) (price : F) (ts : Option ℕ) (m : Match F)
      → m.lots ≡ lots
      → length lots < fuel
      → Over (match_lots fuel price ts m)
  unfolding match_lots
  match_lots-Over o can small lots zero price ts m e h = absurd (omega arith)
  match_lots-Over o can small [] (suc fuel) price ts m e h =
      rw (match_lots_done (suc fuel) price ts m (inl e)) (inl e)
  match_lots-Over o can small (lot ∷ rest) (suc fuel) price ts m e h =
      let next = match_lot price ts lot rest m in
      elim (Bool-cases (lit 1 12 ≺ m.remaining_sell)) [
        | inr over ↦ rw (match_lots_done (suc fuel) price ts m (inr over)) (inr over)
        | inl on ↦ elim (match_lot-shrinks o can small price ts lot rest m) [
          | inl shorter ↦
              rw (match_lots-next fuel price ts m lot rest e on)
                (match_lots-Over o can small rest fuel price ts next shorter (omega arith))
          | inr sold ↦
              rw
                (
                  match_lots-next fuel price ts m lot rest e on,
                  match_lots_done fuel price ts next (inr sold),
                )
                (inr sold)
        ]
      ]
