-- ===== src/Strategy/Entry.antt =====
-- `evaluate_entry_conditions` and `check_entry_signal` of src/engine/strategy.py.
-- The texts of a verdict are data: a constructor for each message, with the values that it shows.
mod Steps
pub mod Admission
pub use Steps.{
  Indicators, Reason, Check, Verdict, Outcome, Eval, ◌>>=◌, ◌>>◌, note, reject_if, need, finish,
  continue, verdict,
}
use coin_pilot.Base.{
  ℕ, Bool, true, false, not, ◌&&◌, Option, none, some, List, [], ◌∷◌, if◌then◌else◌, is_none,
  get_or, any, last_n,
}
use coin_pilot.Number.{Number, ◌⊖◌, ◌⊗◌, ◌≺◌, ◌≼◌, lit}
use coin_pilot.Strategy.Config.{Regime, MaCondition, EntryConfig, Regimes, regime_config}

module _ {W : Type 0} ⦃n : Number W⦄ where
  -- RSI(14) must be there and not above its ceiling.
  unfoldable pub check_rsi_14 : Indicators W → EntryConfig W → Eval W Unit
  check_rsi_14 ind cfg = do
    rsi_14 ← need ind.rsi Reason.rsi14_missing
    reject_if (cfg.rsi_14_max ≺ rsi_14) (Reason.rsi14_high rsi_14 cfg.rsi_14_max)
    note (Check.rsi14_ok rsi_14 cfg.rsi_14_max)

  -- `rsi_7_min_lookback`, or `min(rsi_7, rsi_7_prev)` in its place.
  abbrev lowest_rsi_7 : Option W → W → W → W
  lowest_rsi_7 (some m) rsi_7 prev = m
  lowest_rsi_7 none rsi_7 prev = if prev ≺ rsi_7 then prev else rsi_7

  -- `min_bounce_pct is not None and rsi_7 - rsi_7_min_lookback < min_bounce_pct`
  abbrev bounce_too_small : Option W → W → W → Bool
  bounce_too_small none rsi_7 lowest = false
  bounce_too_small (some least) rsi_7 lowest = (rsi_7 ⊖ lowest) ≺ least

  -- RSI(7) must have been under its trigger, be back over the recovery level, and have bounced.
  unfoldable pub check_rsi_7 : Indicators W → EntryConfig W → Eval W Unit
  check_rsi_7 ind cfg = do
    rsi_7 ← need ind.rsi_short Reason.rsi7_missing
    prev ← need ind.rsi_short_prev Reason.rsi7_missing
    let lowest = lowest_rsi_7 ind.rsi_short_min_lookback rsi_7 prev
    reject_if (not ((lowest ≺ cfg.rsi_7_trigger) && (cfg.rsi_7_recover ≼ rsi_7))) (
        if cfg.rsi_7_trigger ≼ lowest
        then Reason.waiting_oversold lowest cfg.rsi_7_trigger
        else Reason.waiting_rebound rsi_7 cfg.rsi_7_recover lowest)
    note (Check.rsi7_recovered cfg.rsi_7_trigger cfg.rsi_7_recover)
    reject_if (bounce_too_small cfg.min_rsi_7_bounce_pct rsi_7 lowest)
        (Reason.bounce_small (rsi_7 ⊖ lowest))
    note Check.bounce_ok

  -- The test by which each kind of MA filter turns an entry down.
  abbrev ma_rejects : EntryConfig W → W → W → Bool
  ma_rejects cfg close ma_20 = elim cfg.ma_condition [
    | MaCondition.crossover ↦ close ≼ ma_20
    | MaCondition.proximity ↦ close ≺ ma_20 ⊗ get_or cfg.ma_proximity_pct (lit 97 2)
    | MaCondition.proximity_or_above ↦ close ≺ ma_20 ⊗ get_or cfg.ma_proximity_pct (lit 97 2)
    | MaCondition.other ↦ false
  ]

  abbrev under_bb : EntryConfig W → Option W → W → Bool
  under_bb cfg none close = false
  under_bb cfg (some bb_lower) close = cfg.require_price_above_bb_lower && (close ≺ bb_lower)

  -- The price against MA(20) and the lower Bollinger band.
  unfoldable pub check_price : Indicators W → EntryConfig W → Eval W Unit
  check_price ind cfg = do
    ma_20 ← need ind.ma_trend Reason.ma_missing
    close ← need ind.close Reason.ma_missing
    reject_if (ma_rejects cfg close ma_20) (Reason.waiting_trend close ma_20)
    note (Check.ma_ok cfg.ma_condition)
    reject_if (under_bb cfg ind.bb_lower close) (Reason.below_bb close)
    note Check.bb_ok

  -- A ratio that is asked for must be there and not below its limit.
  abbrev volume_below : Option W → Option W → Bool
  volume_below none vol_ratio = false
  volume_below (some least) none = true
  volume_below (some least) (some v) = v ≺ least

  abbrev surges : EntryConfig W → List W → Bool
  surges cfg recent =
      cfg.volume_surge_check
      && any (λ v. get_or cfg.volume_surge_ratio (lit 20 1) ≼ v) (last_n 3 recent)

  unfoldable pub check_volume : Indicators W → EntryConfig W → Eval W Unit
  check_volume ind cfg = do
    reject_if (volume_below cfg.volume_ratio ind.vol_ratio) (Reason.volume_low ind.vol_ratio)
    reject_if (volume_below cfg.volume_min_ratio ind.vol_ratio) (Reason.volume_low ind.vol_ratio)
    note (Check.volume_ok ind.vol_ratio)
    reject_if (surges cfg ind.recent_vol_ratios) Reason.volume_surge

  abbrev waits_for_bb : Regime → EntryConfig W → Indicators W → Bool
  waits_for_bb Regime.sideways cfg ind = cfg.bb_enabled && not ind.bb_touch_recovery
  waits_for_bb _ cfg ind = false

  unfoldable pub check_bb_recovery : Indicators W → EntryConfig W → Regime → Eval W Unit
  check_bb_recovery ind cfg regime = do
    reject_if (waits_for_bb regime cfg ind) Reason.waiting_bb_recovery
    note Check.all_passed

  unfoldable pub evaluate_entry_conditions : Indicators W → EntryConfig W → Regime → Verdict W
  evaluate_entry_conditions ind cfg regime = finish do
    note (Check.market_regime regime)
    check_rsi_14 ind cfg
    check_rsi_7 ind cfg
    check_price ind cfg
    check_volume ind cfg
    check_bb_recovery ind cfg regime

  -- `check_entry_signal`: no entry in an unknown regime, nor in one that has no settings.
  unfoldable pub check_entry_signal : Regimes W → Indicators W → Bool
  check_entry_signal regimes ind = elim (regime_config regimes ind.regime) [
    | none ↦ false
    | some rc ↦ (evaluate_entry_conditions ind rc.entry ind.regime).valid
  ]
