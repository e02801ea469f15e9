-- ===== src/Indicators/Regimes.antt =====
-- A higher fast average never means a worse regime.
use coin_pilot.Base.{ℕ, ◌≤◌, ◌≡◌, true, some, arith, Option-cases, inl, inr}
use coin_pilot.Base.Result.{ok}
use coin_pilot.Number.{Number, ◌⊖◌, ◌⊗◌, ◌⊘◌, ◌≺◌, ◌≼◌, whole}
use coin_pilot.Number.Order.{IsOrdered, IsScaling}
use coin_pilot.Strategy.Config.{Regime}
use coin_pilot.Indicators.{regime_of, detect_regime}

-- From worst to best.
abbrev pub rank : Regime → ℕ
rank Regime.unknown = 0
rank Regime.bear = 1
rank Regime.sideways = 2
rank Regime.bull = 3

module _ {F : Type 0} ⦃f : Number F⦄ where
  regime_of_mono :
      IsOrdered F
      → (bull bear x y : F) → (x ≼ y) ≡ true
      → rank (regime_of bull bear x) ≤ rank (regime_of bull bear y)
  regime_of_mono o bull bear x y h = ground (
    arith,
    o.lt-eq-not-le bull x,
    o.lt-eq-not-le bull y,
    o.lt-eq-not-le x bear,
    o.lt-eq-not-le y bear,
    o.le_trans x y bull,
    o.le_trans bear x y,
  )

  -- Over a positive slow average, and for any two thresholds, a fast average that is not less is
  -- never given a worse regime, in the order BEAR, SIDEWAYS, BULL.
  pub detect_regime_mono :
      IsOrdered F
      → IsScaling F
      → (bull bear slow x y : F) (p q : Regime) → (whole 0 ≺ slow) ≡ true
      → (x ≼ y) ≡ true
      → detect_regime (some x) (some slow) bull bear ≡ ok p
      → detect_regime (some y) (some slow) bull bear ≡ ok q
      → rank p ≤ rank q
  unfolding detect_regime
  detect_regime_mono o sc bull bear slow x y p q pos_ h e e' =
      elim (Option-cases ((x ⊖ slow) ⊘ slow)) [
        | inl none_ ↦ ground (arith, none_)
        | inr (a, is_a) ↦ elim (Option-cases ((y ⊖ slow) ⊘ slow)) [
          | inl none_ ↦ ground (arith, none_)
          | inr (b, is_b) ↦
              let le =
                o.div_mono (x ⊖ slow) (y ⊖ slow) slow a b pos_ (o.sub_mono x y slow h) is_a is_b in
              let le100 = sc.percent_mono a b le in
              ground (
                arith,
                is_a,
                is_b,
                regime_of_mono o bull bear (a ⊗ whole 100) (b ⊗ whole 100) le100,
              )
        ]
      ]
