-- ===== src/Strategy/Tests.antt =====
-- The strategy on concrete inputs, with the default settings of src/config/strategy.py. A number x is written `n (10000 * x)`.
use coin_pilot.Base.{◌≡◌, refl, ◌↔◌, true, false, none, some, List, [], ◌∷◌, inl}
use coin_pilot.Base.Int.{ℤ, pos, ◌-ℤ◌, ◌*ℤ◌}
use coin_pilot.Base.Result.{ok, ◌>>=◌}
use coin_pilot.Number.Fixed.{fixed, same, fixed-IsOrdered}
use coin_pilot.Strategy.Config.{Regime, Regimes}
use coin_pilot.Strategy.Defaults.{default_regimes, bull_entry}
use coin_pilot.Strategy.Entry.{
  Indicators, evaluate_entry_conditions, check_entry_signal, check_rsi_14, check_rsi_7, check_price,
  check_volume, check_bb_recovery,
}
use coin_pilot.Strategy.Entry.Admission.{Admissible, evaluate-Admissible}
use coin_pilot.Strategy.Trailing.{TrailingStop, create, update, gain}
use coin_pilot.Strategy.Trailing.Peak.{feed, Peaked, feed-Peaked}
use coin_pilot.Strategy.Trailing.Rebuild.{kept, rebuilt, rebuilt-eq-kept}
use coin_pilot.Strategy.Exit.{
  PositionInfo, exit_config, get_adjusted_exit_config, check_exit_signal, decide, pnl_ratio, Exit,
}
use coin_pilot.Strategy.Exit.Adjusted.{Tightened, adjusted-Tightened, stopped, stop-kept}
use coin_pilot.Strategy.Exit.Decision.{Decided, check-Decided}

abbrev regimes : Regimes ℤ
regimes = default_regimes

-- RSI(14) 45, RSI(7) 44 after a dip to 30, and a price of 110 over an average of 100.
abbrev dipped : Indicators ℤ
dipped = record {
  regime = Regime.bull;
  rsi = some (pos 450_000);
  rsi_short = some (pos 440_000);
  rsi_short_prev = some (pos 400_000);
  rsi_short_min_lookback = some (pos 300_000);
  ma_trend = some (pos 1_000_000);
  vol_ratio = some (pos 12_000);
  recent_vol_ratios = pos 12_000 ∷ [];
  close = some (pos 1_100_000);
  bb_lower = none;
  bb_touch_recovery = false;
}

enters : check_entry_signal regimes dipped ≡ true
unfolding check_entry_signal evaluate_entry_conditions check_rsi_14 check_rsi_7 check_price
    check_volume check_bb_recovery ◌-ℤ◌
enters = refl

no_rebound : check_entry_signal regimes (record dipped { rsi_short = some (pos 310_000) }) ≡ false
unfolding check_entry_signal evaluate_entry_conditions check_rsi_14 check_rsi_7 check_price
    check_volume check_bb_recovery ◌-ℤ◌
no_rebound = refl

evaluate-Admissible_example :
    ((evaluate_entry_conditions dipped bull_entry Regime.bull).valid ≡ true)
    ↔ Admissible dipped bull_entry Regime.bull
evaluate-Admissible_example = evaluate-Admissible dipped bull_entry Regime.bull

abbrev fresh : TrailingStop ℤ
fresh = record {
  entry_price = pos 1_000_000;
  high_water_mark = pos 1_000_000;
  trailing_stop_pct = pos 300;
  activation_pct = pos 100;
  activated = false;
}

abbrev prices : List ℤ
prices = pos 1_020_000 ∷ pos 1_050_000 ∷ pos 1_010_000 ∷ []

feed-Peaked_example : (ts : TrailingStop ℤ) × (feed fresh prices ≡ ok ts) × Peaked fresh prices ts
feed-Peaked_example = feed-Peaked fixed-IsOrdered fresh prices refl

-- The mark reaches 105, and 101 is more than 3% under it.
fires_at_101 : kept fresh prices ≡ ok (pos 1_050_000, false ∷ false ∷ true ∷ [])
unfolding kept update gain ◌*ℤ◌ ◌-ℤ◌
fires_at_101 = refl

rebuilt-eq-kept_example :
    rebuilt (pos 1_000_000) (pos 300) (pos 100) (pos 1_000_000) prices
    ≡ (create (pos 1_000_000) (pos 300) (pos 100) (some (pos 1_000_000)) >>= λ ts. kept ts prices)
rebuilt-eq-kept_example =
    rebuilt-eq-kept fixed-IsOrdered (pos 1_000_000) (pos 300) (pos 100) (pos 1_000_000) prices refl
      refl

adjusted-Tightened_example :
    Tightened
      (exit_config regimes (some Regime.bull))
      (exit_config regimes (some Regime.sideways))
      (get_adjusted_exit_config regimes (some Regime.bull) Regime.sideways)
adjusted-Tightened_example =
    adjusted-Tightened fixed-IsOrdered regimes (some Regime.bull) Regime.sideways

abbrev held : PositionInfo ℤ
held = record {
  avg_price = pos 1_000_000;
  opened_at = some 0;
  regime = some Regime.bull;
  high_water_mark = some (pos 1_020_000);
}

-- A loss of 3.5% stops under the entry regime BULL, and so it does in SIDEWAYS with its 4%.
stop-kept_example :
    check_exit_signal regimes Regime.sideways (some (pos 965_000)) none held 1 ≡ ok stopped
unfolding decide pnl_ratio ◌*ℤ◌ ◌-ℤ◌
stop-kept_example =
    stop-kept fixed-IsOrdered regimes Regime.sideways (pos 965_000) none held 1 refl (inl refl)

check-Decided_example :
    (pnl : ℤ) × (e : Exit ℤ) × (pnl_ratio (pos 1_010_000) (pos 1_000_000) ≡ ok pnl)
    × (check_exit_signal regimes Regime.bull (some (pos 1_010_000)) none held 1 ≡ ok e)
    × Decided
        (get_adjusted_exit_config regimes (some Regime.bull) Regime.bull)
        none
        (some 0)
        1
        pnl
        (pos 1_020_000)
        (pos 1_010_000)
        e
check-Decided_example =
    check-Decided fixed-IsOrdered fixed-IsOrdered regimes Regime.bull (pos 1_010_000) none held 1
      refl refl
