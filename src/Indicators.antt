-- ===== src/Indicators.antt =====
-- `detect_regime` and `check_bb_touch_recovery` of src/common/indicators.py.
pub mod Regimes
pub mod Recovery
mod Tests
use coin_pilot.Base.{
  ℕ, ◌+◌, max, Bool, false, ◌&&◌, Option, none, some, List, length, any, all, last_n, but_last_n,
  ltb, if◌then◌else◌,
}
use coin_pilot.Base.Result.{Result, ok, zero_division, or_raise, ◌>>=◌}
use coin_pilot.Number.{Number, ◌⊖◌, ◌⊗◌, ◌⊘◌, ◌≺◌, ◌≼◌, whole}
use coin_pilot.Strategy.Config.{Regime}

-- The close of a candle and the lower Bollinger band there.
pub record BandCandle (F : Type 0) : Type 0 where
  pub close : F
  pub bb_lower : F

module _ {F : Type 0} ⦃f : Number F⦄ where
  abbrev pub regime_of : F → F → F → Regime
  regime_of bull bear diff_pct =
      if bull ≺ diff_pct
      then Regime.bull
      else if diff_pct ≺ bear
      then Regime.bear
      else Regime.sideways

  -- A moving average that is None or NaN is `none`.
  unfoldable pub detect_regime : Option F → Option F → F → F → Result Regime
  detect_regime none _ bull bear = ok Regime.unknown
  detect_regime (some _) none bull bear = ok Regime.unknown
  detect_regime (some ma50) (some ma200) bull bear = do
    q ← or_raise ((ma50 ⊖ ma200) ⊘ ma200) zero_division
    ok (regime_of bull bear (q ⊗ whole 100))

  -- The candles stand oldest first.
  unfoldable pub check_bb_touch_recovery : List (BandCandle F) → ℕ → ℕ → Bool
  check_bb_touch_recovery df lookback sustain_candles =
      let sustain = max 1 sustain_candles in
      let lb = max 1 lookback in
      let recent = last_n lb df in
      let touched = any (λ c. c.close ≼ c.bb_lower) (but_last_n sustain recent) in
      let recovered = all (λ c. c.bb_lower ≺ c.close) (last_n sustain recent) in
      if ltb (length df) (max lb (sustain + 1)) then false else touched && recovered
