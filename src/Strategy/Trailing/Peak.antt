-- ===== src/Strategy/Trailing/Peak.antt =====
-- Over any run of prices, the mark is their peak, and the activation is never lost.
use coin_pilot.Base.{
  ◌≡◌, refl, ◌⊎◌, inl, Bool, true, ◌&&◌, ◌||◌, List, [], ◌∷◌, some, arith, if◌then◌else◌,
}
use coin_pilot.Base.Result.{Result, ok, ◌>>=◌}
use coin_pilot.Number.{Number, ◌⊖◌, ◌⊗◌, ◌≺◌, ◌≼◌, whole}
use coin_pilot.Number.Order.{IsOrdered, le_refl, lt→le, not-lt→le, pos-ne}
use coin_pilot.Strategy.Trailing.{TrailingStop, gain, create, update, or_entry}

module _ {F : Type 0} ⦃n : Number F⦄ where
  -- One object, fed the prices in turn.
  pub feed : TrailingStop F → List F → Result (TrailingStop F)
  feed ts [] = ok ts
  feed ts (p ∷ ps) = do (ts', _) ← update ts p; feed ts' ps

  -- The state after a price that made the profit `g`, and the signal.
  abbrev pub advance : TrailingStop F → F → F → TrailingStop F
  advance ts p g = record ts {
    high_water_mark = if ts.high_water_mark ≺ p then p else ts.high_water_mark;
    activated = ts.activated || (ts.activation_pct ≼ g);
  }

  abbrev pub fires : TrailingStop F → F → Bool
  fires ts p = ts.activated && (p ≼ ts.high_water_mark ⊗ (whole 1 ⊖ ts.trailing_stop_pct))

  pub update_lem :
      (ts : TrailingStop F) (p g : F)
      → gain p ts.entry_price ≡ ok g
      → update ts p ≡ ok (advance ts p g, fires (advance ts p g) p)
  unfolding update
  update_lem ts p g h = rw h

  -- The object that `create` makes from a mark with the profit `g`.
  abbrev pub started : F → F → F → F → F → TrailingStop F
  started entry pct activation mark g = record {
    entry_price = entry;
    high_water_mark = or_entry (some mark) entry;
    trailing_stop_pct = pct;
    activation_pct = activation;
    activated = activation ≼ g;
  }

  pub create_lem :
      (entry pct activation mark g : F)
      → gain mark entry ≡ ok g
      → create entry pct activation (some mark) ≡ ok (started entry pct activation mark g)
  unfolding create
  create_lem entry pct activation mark g h = rw h

  pub gain_defined :
      IsOrdered F → (p entry : F) → (whole 0 ≺ entry) ≡ true → (g : F) × (gain p entry ≡ ok g)
  unfolding gain
  gain_defined o p entry pos =
      let (q, e) = o.div_defined (p ⊖ entry) entry (pos-ne o entry pos) in (q, rw e)

  abbrev pub AtLeast : F → List F → Type 0
  AtLeast m [] = Unit
  AtLeast m (p ∷ ps) = ((p ≼ m) ≡ true) × AtLeast m ps

  abbrev pub OneOf : F → List F → Type 0
  OneOf m [] = ⊥
  OneOf m (p ∷ ps) = (m ≡ p) ⊎ OneOf m ps

  pub record Peaked (ts : TrailingStop F) (ps : List F) (ts' : TrailingStop F) : Type 0 where
    pub bound : AtLeast ts'.high_water_mark (ts.high_water_mark ∷ ps)
    pub attained : OneOf ts'.high_water_mark (ts.high_water_mark ∷ ps)
    pub sticky : ts.activated ≡ true → ts'.activated ≡ true
    pub same_entry : ts'.entry_price ≡ ts.entry_price

  Peaked-cons :
      IsOrdered F
      → (ts : TrailingStop F) (p g : F) (ps : List F) (ts' : TrailingStop F)
      → Peaked (advance ts p g) ps ts'
      → Peaked ts (p ∷ ps) ts'
  Peaked-cons o ts p g ps ts' h =
      let m = ts.high_water_mark in
      let m' = ts'.high_water_mark in
      ground (arith, lt→le o m p, not-lt→le o m p, o.le_trans m p m', o.le_trans p m m')

  -- Fed any prices over a positive entry price, a trailing stop never raises; its mark ends at the
  -- greatest of the old mark and the prices; an activated stop stays activated; and the entry price is kept.
  pub feed-Peaked :
      IsOrdered F
      → (ts : TrailingStop F) (ps : List F) → (whole 0 ≺ ts.entry_price) ≡ true
      → (ts' : TrailingStop F) × (feed ts ps ≡ ok ts') × Peaked ts ps ts'
  unfolding feed
  feed-Peaked o ts [] pos = (
    ts,
    refl,
    record { bound = (le_refl o _, tt); attained = inl refl; sticky = λ h. h; same_entry = refl },
  )
  feed-Peaked o ts (p ∷ ps) pos =
      let (g, e) = gain_defined o p ts.entry_price pos in
      let (ts', run, peaked) = feed-Peaked o (advance ts p g) ps pos in
      (ts', rw (update_lem ts p g e) run, Peaked-cons o ts p g ps ts' peaked)
