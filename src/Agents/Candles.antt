-- ===== src/Agents/Candles.antt =====
-- What src/agents/analyst.py makes of the candles before the model sees them.
use mathlib.Core.List.{reverse}
use coin_pilot.Base.{
  ℕ, suc, max, Option, none, some, List, [], ◌∷◌, ◌++◌, map, foldl, length, last_n, but_last_n, ltb,
  if◌then◌else◌,
}
use coin_pilot.Base.Int.{ℤ, pos, negsuc}
use coin_pilot.Base.Result.{Result, ok, ◌>>=◌, or_raise, zero_division}
use coin_pilot.Base.Text.{Text}
use coin_pilot.Number.{Number, lit, whole, ◌⊕◌, ◌⊖◌, ◌⊗◌, ◌⊘◌, ◌≺◌}
use coin_pilot.Number.Format.{Format}

-- A candle as a dict; `none` is a missing value, or one that `float` does not read.
pub record Candle (F : Type 0) : Type 0 where
  pub timestamp : Option Text
  pub open_ : Option F
  pub high : Option F
  pub low : Option F
  pub close : Option F
  pub volume : Option F

-- What is passed on: no volume.
pub record OhlcCandle (F : Type 0) : Type 0 where
  pub timestamp : Option Text
  pub open_ : Option F
  pub high : Option F
  pub low : Option F
  pub close : Option F

-- `max(1, int(limit))`
abbrev at_least_one : ℤ → ℕ
at_least_one (pos n) = max 1 n
at_least_one (negsuc n) = 1

unfoldable pub sanitize_market_context : {F : Type 0} → List (Candle F) → ℤ → List (OhlcCandle F)
sanitize_market_context market_context limit =
    map
      (λ c. record {
        timestamp = c.timestamp;
        open_ = c.open_;
        high = c.high;
        low = c.low;
        close = c.close;
      })
      (last_n (at_least_one limit) market_context)

pub data Direction : Type 0 where
  up down flat : Direction

pub record Features (F : Type 0) : Type 0 where
  pub pattern_direction : Direction
  pub net_change_pct_6h : F
  pub bearish_streak_6h : ℕ
  pub bullish_streak_6h : ℕ
  pub last_body_to_range_ratio : F
  pub last_upper_wick_ratio : F
  pub last_lower_wick_ratio : F
  pub range_expansion_ratio_6h : F

-- The four lists of the loop. A candle that is read in part leaves its first values in them.
pub record Columns (F : Type 0) : Type 0 where
  pub opens : List F
  pub highs : List F
  pub lows : List F
  pub closes : List F

abbrev last_of : {A : Type 0} → A → List A → A
last_of x [] = x
last_of x (y ∷ ys) = last_of y ys

abbrev pairs : {A : Type 0} → List A → List A → List (A × A)
pairs (a ∷ as_) (b ∷ bs) = (a, b) ∷ pairs as_ bs
pairs _ _ = []

module _ {F : Type 0} ⦃n : Number F⦄ where
  -- `append(float(...))` one after the other, until one raises.
  abbrev push_lows : OhlcCandle F → Columns F → Columns F
  push_lows c cols = elim c.low [
    | none ↦ cols
    | some l ↦ elim c.close [
      | none ↦ record cols { lows = cols.lows ++ l ∷ [] }
      | some x ↦ record cols { lows = cols.lows ++ l ∷ []; closes = cols.closes ++ x ∷ [] }
    ]
  ]

  abbrev push_highs : OhlcCandle F → Columns F → Columns F
  push_highs c cols = elim c.high [
    | none ↦ cols
    | some h ↦ push_lows c (record cols { highs = cols.highs ++ h ∷ [] })
  ]

  unfoldable pub push_candle : Columns F → OhlcCandle F → Columns F
  push_candle cols c = elim c.open_ [
    | none ↦ cols
    | some o ↦ push_highs c (record cols { opens = cols.opens ++ o ∷ [] })
  ]

  -- Of a candle's close and open, the last candle first: the two streaks, until the loop breaks.
  abbrev pub streaks : ℕ → ℕ → List (F × F) → ℕ × ℕ
  streaks bearish bullish [] = (bearish, bullish)
  streaks bearish bullish ((close, opened) ∷ rest) =
      let fell = streaks (suc bearish) bullish rest in
      let rose = streaks bearish (suc bullish) rest in
      if close ≺ opened
      then (if ltb 0 bullish then (suc bearish, bullish) else fell)
      else if opened ≺ close
      then (if ltb 0 bearish then (bearish, suc bullish) else rose)
      else (bearish, bullish)

  -- `max(a, b)` and `min(a, b)`
  abbrev at_most : F → F → F
  at_most a b = if b ≺ a then b else a

  abbrev at_least : F → F → F
  at_least a b = if a ≺ b then b else a

  abbrev absolute : F → F
  absolute x = if x ≺ whole 0 then n.neg x else x

  abbrev direction_of : F → Direction
  direction_of change =
      if lit 2 1 ≺ change
      then Direction.up
      else if change ≺ n.neg (lit 2 1)
      then Direction.down
      else Direction.flat

  abbrev range_of : F × F → F
  range_of e = at_least (e.0 ⊖ e.1) (lit 1 9)

  abbrev net_change : F → F → Result F
  net_change first last =
      if whole 0 ≺ first
      then (do q ← or_raise ((last ⊖ first) ⊘ first) zero_division; ok (q ⊗ whole 100))
      else ok (whole 0)

  abbrev average_range : F → List F → Result F
  average_range range [] = ok range
  average_range range (r ∷ rs) =
      or_raise (foldl ◌⊕◌ (whole 0) (r ∷ rs) ⊘ whole (length (r ∷ rs))) zero_division

  abbrev flat_features : Features F
  flat_features = record {
    pattern_direction = Direction.flat;
    net_change_pct_6h = whole 0;
    bearish_streak_6h = 0;
    bullish_streak_6h = 0;
    last_body_to_range_ratio = whole 0;
    last_upper_wick_ratio = whole 0;
    last_lower_wick_ratio = whole 0;
    range_expansion_ratio_6h = whole 1;
  }

  abbrev no_columns : Columns F
  no_columns = record { opens = []; highs = []; lows = []; closes = [] }

  module _ ⦃f : Format F⦄ where
    -- The columns with the first close and the others apart; the other columns are as long.
    abbrev features_of : Columns F → F → List F → Result (Features F)
    features_of cols first rest = do
      let last = last_of first rest
      change ← net_change first last
      let streak = streaks 0 0 (reverse (pairs (first ∷ rest) cols.opens))
      let opened = last_of (whole 0) cols.opens
      let high = last_of (whole 0) cols.highs
      let low = last_of (whole 0) cols.lows
      let range = at_least (high ⊖ low) (lit 1 9)
      let upper = at_least (high ⊖ at_least opened last) (whole 0)
      let lower = at_least (at_most opened last ⊖ low) (whole 0)
      average ←
          average_range range
            (map range_of (pairs (but_last_n 1 cols.highs) (but_last_n 1 cols.lows)))
      body_ratio ← or_raise (absolute (last ⊖ opened) ⊘ range) zero_division
      upper_ratio ← or_raise (upper ⊘ range) zero_division
      lower_ratio ← or_raise (lower ⊘ range) zero_division
      expansion ← or_raise (range ⊘ at_least average (lit 1 9)) zero_division
      ok (record {
        pattern_direction = direction_of change;
        net_change_pct_6h = f.round4 change;
        bearish_streak_6h = streak.0;
        bullish_streak_6h = streak.1;
        last_body_to_range_ratio = f.round4 body_ratio;
        last_upper_wick_ratio = f.round4 upper_ratio;
        last_lower_wick_ratio = f.round4 lower_ratio;
        range_expansion_ratio_6h = f.round4 expansion;
      })

    abbrev features_in : Columns F → List F → Result (Features F)
    features_in cols (first ∷ second ∷ rest) = features_of cols first (second ∷ rest)
    features_in cols _ = ok flat_features

    unfoldable pub extract_candle_pattern_features : List (OhlcCandle F) → Result (Features F)
    unfolding push_candle
    extract_candle_pattern_features market_context =
        let cols = foldl push_candle no_columns (last_n 6 market_context) in
        features_in cols cols.closes
