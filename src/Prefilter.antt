-- ===== src/Prefilter.antt =====
-- `should_run_ai_analysis` of src/agents/context_features.py: the cases that are not worth a call.
use coin_pilot.Base.{
  ℕ, ◌≤◌, ◌≡◌, ◌↔◌, ◌⊎◌, Bool, true, false, not, ◌&&◌, Option, none, some, get_or, ltb,
  if◌then◌else◌, arith,
}
use coin_pilot.Number.{Number, ◌≺◌, ◌≼◌, lit}
use coin_pilot.Number.Order.{IsOrdered}
use coin_pilot.Strategy.Config.{Regime}

-- The keys of an entry configuration that it reads, `none` where one is missing.
pub record PrefilterConfig (F : Type 0) : Type 0 where
  pub enabled : Option Bool
  pub min_context_candles : Option ℕ
  pub max_downtrend_ratio : Option F
  pub min_rebound_pct : Option F
  pub min_volume_recovery_ratio : Option F

-- The features of a BEAR regime among the indicators.
pub record BearFeatures (F : Type 0) : Type 0 where
  pub downtrend_ratio : Option F
  pub rebound_pct : Option F
  pub volume_recovery_ratio : Option F

-- Why no call is made.
pub data Skip : Type 0 where
  context_short falling_knife volume_not_recovered : Skip

abbrev is_bear : Regime → Bool
is_bear Regime.bear = true
is_bear _ = false

module _ {F : Type 0} ⦃f : Number F⦄ where
  abbrev min_context : PrefilterConfig F → ℕ
  min_context cfg = get_or cfg.min_context_candles 12

  -- `downtrend_ratio >= max_downtrend_ratio and rebound_pct < min_rebound_pct`
  abbrev falls : PrefilterConfig F → BearFeatures F → Bool
  falls cfg x =
      (get_or cfg.max_downtrend_ratio (lit 85 2) ≼ get_or x.downtrend_ratio (lit 0 1))
      && (get_or x.rebound_pct (lit 0 1) ≺ get_or cfg.min_rebound_pct (lit 4 1))

  abbrev dries_up : PrefilterConfig F → BearFeatures F → Bool
  dries_up cfg x =
      get_or x.volume_recovery_ratio (lit 10 1) ≺ get_or cfg.min_volume_recovery_ratio (lit 7 1)

  unfoldable pub should_run_ai_analysis :
      Regime → BearFeatures F → ℕ → PrefilterConfig F → Option Skip
  should_run_ai_analysis regime x context_len cfg =
      if not (get_or cfg.enabled true)
      then none
      else if ltb context_len (min_context cfg)
      then some context_short
      else if not (is_bear regime)
      then none
      else if falls cfg x
      then some falling_knife
      else if dries_up cfg x
      then some volume_not_recovered
      else none

  -- A call is worth it: each key with its default, and the comparisons the other way round.
  pub record Worthy (regime : Regime) (x : BearFeatures F) (context_len : ℕ)
      (cfg : PrefilterConfig F) : Type 0 where
    pub context : get_or cfg.min_context_candles 12 ≤ context_len
    pub steady :
        regime ≡ Regime.bear
        → (get_or cfg.max_downtrend_ratio (lit 85 2) ≼ get_or x.downtrend_ratio (lit 0 1)) ≡ true
        → (get_or cfg.min_rebound_pct (lit 4 1) ≼ get_or x.rebound_pct (lit 0 1)) ≡ true
    pub volume :
        regime ≡ Regime.bear
        → (get_or cfg.min_volume_recovery_ratio (lit 7 1)
            ≼ get_or x.volume_recovery_ratio (lit 10 1))
          ≡ true

  -- A call is made exactly when the filter is off, or when there are at least as many candles of
  -- context as it asks for, 12 by default, and in a BEAR regime, with the defaults of the source for
  -- what is missing: where the share of falls reaches its limit of 0.85, the rebound reaches its
  -- least of 0.4, and the recovery of the volume reaches its least of 0.7.
  pub should_run-Worthy :
      IsOrdered F
      → (regime : Regime) (x : BearFeatures F) (context_len : ℕ) (cfg : PrefilterConfig F)
      → (should_run_ai_analysis regime x context_len cfg ≡ none)
        ↔ ((get_or cfg.enabled true ≡ false) ⊎ Worthy regime x context_len cfg)
  unfolding should_run_ai_analysis
  should_run-Worthy or regime x context_len cfg =
      let rebound =
        or.lt-eq-not-le (get_or x.rebound_pct (lit 0 1)) (get_or cfg.min_rebound_pct (lit 4 1)) in
      let volume =
        or.lt-eq-not-le (get_or x.volume_recovery_ratio (lit 10 1))
          (get_or cfg.min_volume_recovery_ratio (lit 7 1)) in
      elim regime [
        | Regime.bull ↦ ground arith
        | Regime.sideways ↦ ground arith
        | Regime.bear ↦ ground (arith, rebound, volume)
        | Regime.unknown ↦ ground arith
      ]
