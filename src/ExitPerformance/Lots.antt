-- ===== src/ExitPerformance/Lots.antt =====
-- `_build_buy_lots` and `_consume_entry`: the bought lots of a symbol are used up from the first on.
use coin_pilot.Base.{
  ℕ, zero, suc, Bool, true, false, ◌&&◌, ◌||◌, Option, none, some, List, [], ◌∷◌, ◌++◌, length,
  get_or, if◌then◌else◌,
}
use coin_pilot.Base.Dict.{Dict, lookup, insert}
use coin_pilot.Number.{Number, ◌⊕◌, ◌⊖◌, ◌⊗◌, ◌⊘◌, ◌≺◌, ◌≼◌, whole}

pub record Lot (D : Type 0) : Type 0 where
  pub qty : D
  pub price : D
  pub ts : ℕ

-- A filled BUY, in the order of time: a price or a quantity that is no decimal is `none`.
pub record BuyOrder (D : Type 0) : Type 0 where
  pub symbol : ℕ
  pub price : Option D
  pub quantity : Option D
  pub ts : ℕ

-- The variables of the loop in `_consume_entry`.
pub record Walk (D : Type 0) : Type 0 where
  pub lots : List (Lot D)
  pub remaining : D
  pub consumed : D
  pub total_cost : D
  pub first_ts : Option ℕ

abbrev pub is_empty : {A : Type 0} → List A → Bool
is_empty [] = true
is_empty (_ ∷ _) = false

abbrev or_first : Option ℕ → ℕ → Option ℕ
or_first none t = some t
or_first (some u) t = some u

module _ {D : Type 0} ⦃d : Number D⦄ where
  abbrev add_lot : Option D → Option D → BuyOrder D → Dict (List (Lot D)) → Dict (List (Lot D))
  add_lot (some price) (some qty) o lots =
      if qty ≼ whole 0
      then lots
      else insert o.symbol
          (get_or (lookup o.symbol lots) [] ++ record { qty = qty; price = price; ts = o.ts } ∷ [])
          lots
  add_lot _ _ o lots = lots

  unfoldable pub build_buy_lots : List (BuyOrder D) → Dict (List (Lot D)) → Dict (List (Lot D))
  build_buy_lots [] lots = lots
  build_buy_lots (o ∷ orders) lots = build_buy_lots orders (add_lot o.price o.quantity o lots)

  -- `lot_qty if lot_qty <= remaining else remaining`
  abbrev pub used_of : Lot D → Walk D → D
  used_of lot w = if lot.qty ≼ w.remaining then lot.qty else w.remaining

  abbrev pub left_lots : Lot D → List (Lot D) → D → List (Lot D)
  left_lots lot rest left = if left ≼ whole 0 then rest else record lot { qty = left } ∷ rest

  abbrev pub use_lot : Lot D → List (Lot D) → Walk D → D → Walk D
  use_lot lot rest w used = record {
    lots = left_lots lot rest (lot.qty ⊖ used);
    remaining = w.remaining ⊖ used;
    consumed = w.consumed ⊕ used;
    total_cost = w.total_cost ⊕ lot.price ⊗ used;
    first_ts = or_first w.first_ts lot.ts;
  }

  -- One pass of the loop over a first lot.
  unfoldable pub pass : Lot D → List (Lot D) → Walk D → Walk D
  pass lot rest w =
      if lot.qty ≼ whole 0 then record w { lots = rest } else use_lot lot rest w (used_of lot w)

  abbrev pub pass_first : List (Lot D) → Walk D → Walk D
  pass_first [] w = w
  pass_first (lot ∷ rest) w = pass lot rest w

  -- `while remaining > 0 and lots`
  abbrev pub goes_on : Walk D → Bool
  goes_on w = (whole 0 ≺ w.remaining) && (if is_empty w.lots then false else true)

  -- The loop, for so many passes; `none` where they were too few.
  unfoldable pub walk : ℕ → Walk D → Option (Walk D)
  walk zero w = none
  walk (suc n) w = let next = walk n (pass_first w.lots w) in if goes_on w then next else some w

  abbrev pub start_walk : List (Lot D) → D → Walk D
  start_walk lots qty = record {
    lots = lots;
    remaining = qty;
    consumed = whole 0;
    total_cost = whole 0;
    first_ts = none;
  }

  abbrev pub average_of : Walk D → Option (D × Option ℕ)
  average_of w =
      if w.consumed ≼ whole 0
      then none
      else elim (w.total_cost ⊘ w.consumed) [ none ↦ none | some avg ↦ some (avg, w.first_ts) ]

  abbrev after_walk : List (Lot D) → Option (Walk D) → Option (D × Option ℕ) × List (Lot D)
  after_walk lots none = (none, lots)
  after_walk lots (some w) = (average_of w, w.lots)

  -- The average price and the first time of what was sold, and the lots that are left.
  unfoldable pub consume_entry : List (Lot D) → D → Option (D × Option ℕ) × List (Lot D)
  consume_entry lots qty =
      let done = walk (suc (length lots)) (start_walk lots qty) in
      if is_empty lots || (qty ≼ whole 0) then (none, lots) else after_walk lots done
