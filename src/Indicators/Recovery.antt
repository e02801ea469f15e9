-- ===== src/Indicators/Recovery.antt =====
-- When a recovery over the lower band can be seen at all.
use coin_pilot.Base.{
  ℕ, zero, suc, ◌-◌, ◌≤◌, ◌≡◌, max, refl, false, List, [], ◌∷◌, length, take, drop, last_n,
  but_last_n, arith,
}
use coin_pilot.Number.{Number}
use coin_pilot.Indicators.{BandCandle, check_bb_touch_recovery}

length-drop : {A : Type 0} (n : ℕ) (xs : List A) → length (drop n xs) ≡ length xs - n
length-drop zero xs = omega arith
length-drop (suc n) [] = omega arith
length-drop (suc n) (_ ∷ rest) = omega (arith, length-drop n rest)

take_none : {A : Type 0} (n : ℕ) (xs : List A) → n ≡ 0 → take n xs ≡ []
take_none zero xs e = refl
take_none (suc n) xs e = ground arith

-- Nothing is left before the last `n` of at most `n` entries.
but_last_short : {A : Type 0} (n : ℕ) (xs : List A) → length xs ≤ n → but_last_n n xs ≡ []
but_last_short n xs h = ground (arith, take_none (length xs - n) xs)

module _ {F : Type 0} ⦃f : Number F⦄ where
  last_n-length : (n : ℕ) (df : List (BandCandle F)) → length (last_n n df) ≤ n
  last_n-length n df = omega (arith, length-drop (length df - n) df)

  -- Where the candles to sustain are as many as those looked back on, or more, no recovery is ever
  -- reported, whatever the candles: the touch is looked for before the sustained candles, and
  -- there are none.
  pub no_recovery :
      (df : List (BandCandle F)) (lookback sustain : ℕ)
      → lookback ≤ max 1 sustain
      → check_bb_touch_recovery df lookback sustain ≡ false
  unfolding check_bb_touch_recovery
  no_recovery df lookback sustain h =
      let recent = last_n (max 1 lookback) df in
      ground (arith, but_last_short (max 1 sustain) recent, last_n-length (max 1 lookback) df)
