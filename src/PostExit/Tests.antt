-- ===== src/PostExit/Tests.antt =====
-- The tracker on a sale at time 0. A number x is written `n (10000 * x)`.
use coin_pilot.Base.{ℕ, ◌*◌, ◌+◌, ◌-◌, ◌≡◌, refl, true, some, none, inl, inr, List, [], ◌∷◌, arith}
use coin_pilot.Base.Int.{ℤ, pos, ◌-ℤ◌, ◌*ℤ◌}
use coin_pilot.Base.Result.{ok}
use coin_pilot.Number.Fixed.{fixed, same, fixed-IsOrdered}
use coin_pilot.PostExit.{
  Window, h1, h4, h12, h24, SellOrder, MinuteClose, is_complete, get_nearest_close_price,
  track_post_exit_prices,
}
use coin_pilot.PostExit.Runs.{
  Run, SomeRun, Traced, track_runs, track_runs-Traced, is_complete-track_runs,
}

abbrev hour : ℕ
hour = 3_600_000_000

abbrev order : SellOrder ℤ ℤ
order = record {
  symbol = 0;
  price = pos 1_000_000;
  executed_at = none;
  created_at = some 0;
  post_exit_prices = [];
}

abbrev close_at : ℕ → ℕ → MinuteClose ℤ
close_at t price = record { symbol = 0; timestamp = t; close_price = pos price }

abbrev candles : List (MinuteClose ℤ)
candles =
    close_at (1 * hour + 120_000_000) 1_100_000
    ∷ close_at (1 * hour - 60_000_000) 1_200_000
    ∷ close_at (4 * hour) 900_000
    ∷ close_at (12 * hour + 300_000_000) 900_000
    ∷ close_at (24 * hour) 1_000_000
    ∷ []

nearest : get_nearest_close_price 0 (1 * hour) candles ≡ some (pos 1_200_000)
unfolding get_nearest_close_price
nearest = refl

abbrev early : Run ℤ
early = (5 * hour, candles)

abbrev late_run : Run ℤ
late_run = (25 * hour, candles)

abbrev runs : List (Run ℤ)
runs = early ∷ late_run ∷ []

serves : (w : Window) → SomeRun 0 0 w runs
unfolding get_nearest_close_price
serves h1 = inl (omega arith, (pos 1_200_000, refl))
serves h4 = inl (omega arith, (pos 900_000, refl))
serves h12 = inr (inl (omega arith, (pos 900_000, refl)))
serves h24 = inr (inl (omega arith, (pos 1_000_000, refl)))

is_complete-track_runs_example :
    (final : SellOrder ℤ ℤ) × (track_runs (λ x. x) runs order ≡ ok final)
    × (is_complete final.post_exit_prices ≡ true)
is_complete-track_runs_example =
    is_complete-track_runs fixed-IsOrdered (λ x. x) runs 0 order refl refl serves

track_runs-Traced_example :
    (final : SellOrder ℤ ℤ) × (track_runs (λ x. x) runs order ≡ ok final) × Traced 0 order final
track_runs-Traced_example = track_runs-Traced fixed-IsOrdered (λ x. x) runs 0 order refl refl

counted :
    track_post_exit_prices (λ x. x) (25 * hour) (close_at (24 * hour) 1_100_000 ∷ []) (order ∷ [])
    ≡ ok (
      record { orders_scanned = 1; orders_updated = 1; points_tracked = 1; points_missed = 3 },
      record order {
        post_exit_prices =
            (
              h24,
              record { price = pos 1_100_000; change_pct = pos 100_000; tracked_at = 25 * hour },
            )
            ∷ [];
      }
          ∷ [],
    )
unfolding track_post_exit_prices ◌-ℤ◌ ◌*ℤ◌
counted = refl
