-- ===== src/Tools/Risk/Spread.antt =====
-- What the concentration of src/agents/tools/risk_diagnosis_tool.py says of each position.
use coin_pilot.Base.{
  ◌≡◌, true, false, some, List, [], ◌∷◌, map, foldl, arith, if◌then◌else◌, Option-cases, inl, inr,
  get_or,
}
use coin_pilot.Base.Ordered.{All}
use coin_pilot.Base.Result.{ok, Result-cases}
use coin_pilot.Number.{Number, whole, ◌⊕◌, ◌⊗◌, ◌⊘◌, ◌≺◌, ◌≼◌}
use coin_pilot.Number.Order.{IsOrdered, lt→le, not-lt→le}
use coin_pilot.Tools.Risk.{PositionRow, value_of, max_from, max_share, shares, concentration_of}

module _ {F : Type 0} ⦃n : Number F⦄ where
  -- A position's quantity at the last close, and all there is: the balance and the positions.
  abbrev pub worth : PositionRow F → F
  worth row = get_or row.0 (whole 0) ⊗ get_or row.1 (whole 0)

  abbrev pub total_of : F → List (PositionRow F) → F
  total_of balance rows = balance ⊕ foldl ◌⊕◌ (whole 0) (map worth rows)

  -- Each position makes up less than the limit of all there is.
  abbrev pub IsSpread : F → F → List (PositionRow F) → Type 0
  IsSpread limit balance rows =
      All (λ row. (q : F) → worth row ⊘ total_of balance rows ≡ some q → (limit ≼ q) ≡ false) rows

  -- No element reaches a limit that the greatest does not reach.
  max_from-least :
      IsOrdered F
      → (limit x : F) (ys : List F) → (limit ≼ max_from x ys) ≡ false
      → ((limit ≼ x) ≡ false) × All (λ y. (limit ≼ y) ≡ false) ys
  max_from-least or limit x [] h = (h, tt)
  max_from-least or limit x (y ∷ ys) h =
      let (under, rest) = max_from-least or limit (if x ≺ y then y else x) ys h in
      (
        ground (arith, under, lt→le or x y, or.le_trans limit x y),
        (ground (arith, under, not-lt→le or x y, or.le_trans limit y x), rest),
      )

  max_share-least :
      IsOrdered F
      → (limit : F) (qs : List F) → (limit ≼ max_share qs) ≡ false
      → All (λ q. (limit ≼ q) ≡ false) qs
  max_share-least or limit [] h = tt
  max_share-least or limit (q ∷ qs) h = max_from-least or limit q qs h

  shares-cons :
      (total v : F) (vs qs : List F)
      → shares total (v ∷ vs) ≡ ok qs
      → (q : F) × (rest : List F) × (v ⊘ total ≡ some q)
        × (shares total vs ≡ ok rest)
        × (qs ≡ q ∷ rest)
  shares-cons total v vs qs e = elim (Option-cases (v ⊘ total)) [
    | inl undefined ↦ absurd (ground (arith, undefined, e))
    | inr (q, defined) ↦ elim (Result-cases (shares total vs)) [
      | inl (x, failed) ↦ absurd (ground (arith, defined, failed, e))
      | inr (rest, done) ↦ (q, rest, defined, done, ground (arith, defined, done, e))
    ]
  ]

  shares-least :
      (limit total : F) (rows : List (PositionRow F)) (qs : List F)
      → shares total (map value_of rows) ≡ ok qs
      → All (λ q. (limit ≼ q) ≡ false) qs
      → All (λ row. (q : F) → worth row ⊘ total ≡ some q → (limit ≼ q) ≡ false) rows
  shares-least limit total [] qs e h = tt
  shares-least limit total (row ∷ rows) qs e h =
      let (q, rest, defined, done, same) = shares-cons total (worth row) (map value_of rows) qs e in
      let under = rw same at h in
      (
        λ q' e'. ground (arith, defined, e', under.0),
        shares-least limit total rows rest done under.1,
      )

  concentration-shares :
      (balance c : F) (rows : List (PositionRow F))
      → (whole 0 ≺ total_of balance rows) ≡ true
      → concentration_of balance rows ≡ ok c
      → (qs : List F) × (shares (total_of balance rows) (map value_of rows) ≡ ok qs)
        × (c ≡ max_share qs)
  unfolding concentration_of
  concentration-shares balance c rows pos e =
      elim (Result-cases (shares (total_of balance rows) (map value_of rows))) [
        | inl (x, failed) ↦ absurd (ground (arith, pos, failed, e))
        | inr (qs, done) ↦ (qs, done, ground (arith, pos, done, e))
      ]

  -- Where all there is is more than zero, a concentration under a limit is the greatest share: every
  -- position makes up less.
  pub concentration-IsSpread :
      IsOrdered F
      → (limit balance c : F) (rows : List (PositionRow F))
      → (whole 0 ≺ total_of balance rows) ≡ true
      → concentration_of balance rows ≡ ok c
      → (limit ≼ c) ≡ false
      → IsSpread limit balance rows
  concentration-IsSpread or limit balance c rows pos e h =
      let (qs, done, same) = concentration-shares balance c rows pos e in
      shares-least limit (total_of balance rows) rows qs done
        (max_share-least or limit qs (ground (arith, same, h)))
