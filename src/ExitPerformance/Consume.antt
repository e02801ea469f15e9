-- ===== src/ExitPerformance/Consume.antt =====
-- The loop over the lots ends, and uses the lots from the front.
use coin_pilot.Base.{
  ℕ, zero, suc, ap, ◌∙◌, ◌<◌, ◌≡◌, refl, true, false, some, List, [], ◌∷◌, length, drop, arith,
  Bool-cases, inl, inr, ◌⊎◌,
}
use coin_pilot.Number.{Number, ◌⊖◌, ◌≺◌, whole}
use coin_pilot.Number.Order.{IsOrdered, IsCancelling}
use coin_pilot.ExitPerformance.{Lot, Walk, used_of, pass, pass_first, goes_on, walk}

module _ {D : Type 0} ⦃d : Number D⦄ where
  -- The second list is the end of the first, where the first lot may have been used in part.
  abbrev pub FromEnd : List (Lot D) → List (Lot D) → Type 0
  FromEnd lots lots' =
      (k : ℕ) × ((lots' ≡ drop k lots)
        ⊎ ((lot : Lot D) × (rest : List (Lot D)) × (q : D) × (drop k lots ≡ lot ∷ rest)
            × (lots' ≡ record lot { qty = q } ∷ rest)))

  -- A pass uses up the first lot, or what is to be sold.
  pass-shrinks :
      IsOrdered D
      → IsCancelling D
      → (lot : Lot D) (rest : List (Lot D)) (w : Walk D)
      → ((pass lot rest w).lots ≡ rest)
        ⊎ (((whole 0 ≺ (pass lot rest w).remaining) ≡ false)
            × ((pass lot rest w).lots ≡ record lot { qty = lot.qty ⊖ used_of lot w } ∷ rest))
  unfolding pass
  pass-shrinks o can lot rest w = ground (
    arith,
    can.sub_self lot.qty,
    can.sub_self w.remaining,
    o.lt-eq-not-le (whole 0) (w.remaining ⊖ w.remaining),
  )

  -- What the loop has left.
  pub record Ended (lots : List (Lot D)) (w : Walk D) : Type 0 where
    pub over : goes_on w ≡ false
    pub from_end : FromEnd lots w.lots

  FromEnd-cons :
      (lot : Lot D) (rest lots' : List (Lot D)) → FromEnd rest lots' → FromEnd (lot ∷ rest) lots'
  FromEnd-cons lot rest lots' (k, h) = (suc k, h)

  stops : (n : ℕ) (w : Walk D) → goes_on w ≡ false → 0 < n → walk n w ≡ some w
  unfolding walk
  stops zero w h p = ground arith
  stops (suc n) w h p = rw h

  continues :
      (n : ℕ) (w : Walk D) (lot : Lot D) (rest : List (Lot D))
      → goes_on w ≡ true
      → w.lots ≡ lot ∷ rest
      → walk (suc n) w ≡ walk n (pass lot rest w)
  unfolding walk
  continues n w lot rest on e = ground (arith, on, ap (λ lots. walk n (pass_first lots w)) e)

  go :
      IsOrdered D
      → IsCancelling D
      → (lots : List (Lot D)) (n : ℕ) (w : Walk D) → w.lots ≡ lots
      → length lots < n
      → (w' : Walk D) × (walk n w ≡ some w') × Ended lots w'
  unfolding walk
  go o can lots zero w e h = ground arith
  go o can [] (suc n) w e h =
      (w, ground (arith, e), record { over = ground (arith, e); from_end = (0, inl e) })
  go o can (lot ∷ rest) (suc n) w e h =
      let next = pass lot rest w in
      elim (Bool-cases (goes_on w)) [
        | inr over ↦ (w, rw over, record { over = over; from_end = (0, inl e) })
        | inl on ↦ elim (pass-shrinks o can lot rest w) [
          | inl shorter ↦
              let (w', run, ended) = go o can rest n next shorter (omega arith) in
              (
                w',
                continues n w lot rest on e ∙ run,
                record {
                  over = ended.over;
                  from_end = FromEnd-cons lot rest w'.lots ended.from_end;
                },
              )
          | inr (sold, left) ↦
              let halt : goes_on next ≡ false = ground (arith, sold) in
              (
                next,
                continues n w lot rest on e ∙ stops n next halt (omega arith),
                record {
                  over = halt;
                  from_end = (0, inr (lot, rest, lot.qty ⊖ used_of lot w, refl, left));
                },
              )
        ]
      ]

  -- Where a number less itself is zero, the loop of `_consume_entry` ends after at most one pass
  -- for each lot, whatever the lots hold; then nothing is left to sell or no lot is left, and the
  -- lots that are left are the end of the list, the first of them perhaps used in part.
  pub walk-Ended :
      IsOrdered D
      → IsCancelling D
      → (w : Walk D) → (w' : Walk D) × (walk (suc (length w.lots)) w ≡ some w') × Ended w.lots w'
  walk-Ended o can w = go o can w.lots (suc (length w.lots)) w refl (omega arith)
