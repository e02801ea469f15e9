-- ===== src/Indicators/Tests.antt =====
-- The indicators on concrete inputs. A number x is written `n (10000 * x)`.
use coin_pilot.Base.{◌≡◌, ◌≤◌, refl, true, false, some, List, [], ◌∷◌, arith}
use coin_pilot.Base.Int.{ℤ, pos, negsuc, ◌-ℤ◌, ◌*ℤ◌}
use coin_pilot.Base.Result.{ok}
use coin_pilot.Number.Fixed.{fixed, fixed-IsOrdered, fixed-IsScaling}
use coin_pilot.Strategy.Config.{Regime}
use coin_pilot.Indicators.{BandCandle, detect_regime, check_bb_touch_recovery}
use coin_pilot.Indicators.Regimes.{rank, detect_regime_mono}
use coin_pilot.Indicators.Recovery.{no_recovery}

-- 2% above and below.
abbrev bear_limit : ℤ
bear_limit = negsuc 19_999

below :
    detect_regime (some (pos 9_700_000)) (some (pos 10_000_000)) (pos 20_000) bear_limit
    ≡ ok Regime.bear
unfolding detect_regime ◌-ℤ◌ ◌*ℤ◌
below = refl

above :
    detect_regime (some (pos 10_201_000)) (some (pos 10_000_000)) (pos 20_000) bear_limit
    ≡ ok Regime.bull
unfolding detect_regime ◌-ℤ◌ ◌*ℤ◌
above = refl

detect_regime_mono_example : rank Regime.bear ≤ rank Regime.bull
detect_regime_mono_example =
    detect_regime_mono fixed-IsOrdered fixed-IsScaling (pos 20_000) bear_limit (pos 10_000_000)
      (pos 9_700_000) (pos 10_201_000) Regime.bear Regime.bull refl refl below above

abbrev candles : List (BandCandle ℤ)
candles =
    record { close = pos 9; bb_lower = pos 10 }
    ∷ record { close = pos 11; bb_lower = pos 10 }
    ∷ record { close = pos 12; bb_lower = pos 10 }
    ∷ []

recovers : check_bb_touch_recovery candles 3 2 ≡ true
unfolding check_bb_touch_recovery
recovers = refl

no_recovery_example : check_bb_touch_recovery candles 2 2 ≡ false
no_recovery_example = no_recovery candles 2 2 (ground arith)
