-- ===== src/Strategy/Trailing/Rebuild.antt =====
-- The bot keeps only the high water mark between two rounds, and builds a new `TrailingStop` from
-- it in each. That loses nothing: it acts as one object that lives on.
use coin_pilot.Base.{◌≡◌, refl, sym, Bool, true, List, [], ◌∷◌, some, arith, if◌then◌else◌}
use coin_pilot.Base.Result.{Result, ok, ◌>>=◌}
use coin_pilot.Number.{Number, ◌⊖◌, ◌≺◌, ◌≼◌, whole}
use coin_pilot.Number.Order.{IsOrdered, lt→le, not-lt→le, pos-ne, lt-le_trans}
use coin_pilot.Strategy.Trailing.{TrailingStop, gain, create, update}
use coin_pilot.Strategy.Trailing.Peak.{advance, update_lem, gain_defined}

module _ {F : Type 0} ⦃n : Number F⦄ where
  -- One object: the last mark and the signal of each round.
  unfoldable pub kept : TrailingStop F → List F → Result (F × List Bool)
  kept ts [] = ok (ts.high_water_mark, [])
  kept ts (p ∷ ps) = do
    (ts', fired) ← update ts p
    (mark, signals) ← kept ts' ps
    ok (mark, fired ∷ signals)

  -- A new object in each round, from the mark that the round before has left.
  pub rebuilt : F → F → F → F → List F → Result (F × List Bool)
  rebuilt entry pct activation mark [] = ok (mark, [])
  rebuilt entry pct activation mark (p ∷ ps) = do
    ts ← create entry pct activation (some mark)
    (ts', fired) ← update ts p
    (last, signals) ← rebuilt entry pct activation ts'.high_water_mark ps
    ok (last, fired ∷ signals)

  -- The state is what `create` makes of its own mark.
  record IsCoherent (ts : TrailingStop F) : Type 0 where
    positive : (whole 0 ≺ ts.entry_price) ≡ true
    mark_positive : (whole 0 ≺ ts.high_water_mark) ≡ true
    profit : F
    at_mark : gain ts.high_water_mark ts.entry_price ≡ ok profit
    active : ts.activated ≡ (ts.activation_pct ≼ profit)

  gain_mono :
      IsOrdered F
      → (a b e p q : F) → (whole 0 ≺ e) ≡ true
      → (a ≼ b) ≡ true
      → gain a e ≡ ok p
      → gain b e ≡ ok q
      → (p ≼ q) ≡ true
  unfolding gain
  gain_mono o a b e p q pos h ga gb =
      ground (arith, o.div_mono (a ⊖ e) (b ⊖ e) e p q pos (o.sub_mono a b e h))

  create-IsCoherent :
      IsOrdered F
      → (ts : TrailingStop F) → IsCoherent ts
      → create ts.entry_price ts.trailing_stop_pct ts.activation_pct (some ts.high_water_mark)
        ≡ ok ts
  unfolding create
  create-IsCoherent o ts c = ground (arith, pos-ne o ts.high_water_mark)

  advance-IsCoherent :
      IsOrdered F
      → (ts : TrailingStop F) (p g : F) → gain p ts.entry_price ≡ ok g
      → IsCoherent ts
      → IsCoherent (advance ts p g)
  advance-IsCoherent o ts p g e c =
      let m = ts.high_water_mark in
      let entry = ts.entry_price in
      record {
        positive = c.positive;
        mark_positive =
            ground
              (arith, lt→le o m p, lt-le_trans o (whole 0) m p c.mark_positive, c.mark_positive);
        profit = if m ≺ p then g else c.profit;
        at_mark = ground (arith, c.at_mark);
        active = ground (
          arith,
          c.active,
          lt→le o m p,
          not-lt→le o m p,
          gain_mono o m p entry c.profit g c.positive,
          gain_mono o p m entry g c.profit c.positive,
          o.le_trans ts.activation_pct c.profit g,
          o.le_trans ts.activation_pct g c.profit,
        );
      }

  kept-eq-rebuilt :
      IsOrdered F
      → (ts : TrailingStop F) (ps : List F) → IsCoherent ts
      → kept ts ps
        ≡ rebuilt ts.entry_price ts.trailing_stop_pct ts.activation_pct ts.high_water_mark ps
  unfolding kept rebuilt
  kept-eq-rebuilt o ts [] c = refl
  kept-eq-rebuilt o ts (p ∷ ps) c =
      let (g, e) = gain_defined o p ts.entry_price c.positive in
      rw (create-IsCoherent o ts c, update_lem ts p g e)
        (rw (kept-eq-rebuilt o (advance ts p g) ps (advance-IsCoherent o ts p g e c)))

  -- Over a positive entry price and a positive mark, and any prices: building the trailing stop
  -- anew from the persisted mark in each round gives the signals, and the last mark, of the one
  -- object that `create` makes at the start and that lives on.
  pub rebuilt-eq-kept :
      IsOrdered F
      → (entry pct activation mark : F) (ps : List F) → (whole 0 ≺ entry) ≡ true
      → (whole 0 ≺ mark) ≡ true
      → rebuilt entry pct activation mark ps
        ≡ (create entry pct activation (some mark) >>= λ ts. kept ts ps)
  unfolding create
  rebuilt-eq-kept o entry pct activation mark ps pe pm =
      let (g, e) = gain_defined o mark entry pe in
      rw (e, pos-ne o mark pm)
        (sym (
          kept-eq-rebuilt o _ ps
            (record { positive = pe; mark_positive = pm; profit = g; at_mark = e; active = refl })))
