-- ===== src/ExitPerformance/Tests.antt =====
-- The analysis of exits on concrete inputs. A number x is written `n (10000 * x)`.
use coin_pilot.Base.{ℕ, ◌≡◌, refl, none, some, List, [], ◌∷◌}
use coin_pilot.Base.Dict.{lookup, insert}
use coin_pilot.Base.Int.{ℤ, pos, negsuc, ◌-ℤ◌, ◌+ℤ◌, ◌*ℤ◌}
use coin_pilot.Number.Fixed.{fixed, fixed-IsOrdered, fixed-IsCancelling}
use coin_pilot.ExitPerformance.{
  Lot, Walk, start_walk, pass, walk, build_buy_lots, consume_entry, SellSample, Bucket, no_groups,
  tally, add_sample, add_to_bucket, time_limit_text, take_profit_text, Suggestion,
  generate_tuning_suggestions,
}
use coin_pilot.ExitPerformance.Consume.{Ended, walk-Ended}
use coin_pilot.ExitPerformance.Tally.{Holds, tally-Holds}

abbrev lots : List (Lot ℤ)
lots =
    record { qty = pos 10_000; price = pos 1_000_000; ts = 1 }
    ∷ record { qty = pos 20_000; price = pos 1_300_000; ts = 2 }
    ∷ []

-- Two coins cost 100 and 130 from the two lots, and one is left of the second.
consumed : consume_entry lots (pos 20_000) ≡ (
  some (pos 1_150_000, some 1),
  record { qty = pos 10_000; price = pos 1_300_000; ts = 2 } ∷ [],
)
unfolding consume_entry walk pass ◌+ℤ◌ ◌-ℤ◌ ◌*ℤ◌
consumed = refl

-- An order without a quantity is left out.
built :
    build_buy_lots
      (record { symbol = 7; price = some (pos 5); quantity = none; ts = 1 }
        ∷ record { symbol = 7; price = some (pos 5); quantity = some (pos 2); ts = 2 }
        ∷ [])
      []
    ≡ (7, record { qty = pos 2; price = pos 5; ts = 2 } ∷ []) ∷ []
unfolding build_buy_lots lookup insert
built = refl

walk-Ended_example : (w : Walk ℤ) × (walk 3 (start_walk lots (pos 50_000)) ≡ some w) × Ended lots w
walk-Ended_example = walk-Ended fixed-IsOrdered fixed-IsCancelling (start_walk lots (pos 50_000))

abbrev sample : ℕ → ℤ → SellSample ℤ
sample reason later = record {
  regime = 0;
  exit_reason = reason;
  pnl_pct = pos 10_000;
  hold_hours = none;
  post_1h = none;
  post_4h = none;
  post_12h = none;
  post_24h = some later;
}

abbrev samples : List (SellSample ℤ)
samples = sample time_limit_text (negsuc 50_000) ∷ sample take_profit_text (pos 30_000) ∷ []

abbrev late : Bucket ℤ
late = record {
  count = 1;
  pnl = pos 10_000 ∷ [];
  hold_hours = [];
  post_1h = [];
  post_4h = [];
  post_12h = [];
  post_24h = negsuc 50_000 ∷ [];
  early_exit_24h_plus2 = 0;
  time_limit_24h_minus3 = 1;
  post24_count = 1;
  early_exit_target_count = 0;
  time_limit_target_count = 1;
}

late_bucket : lookup 2 (tally samples no_groups).by_reason ≡ some late
unfolding tally add_sample add_to_bucket lookup insert ◌-ℤ◌
late_bucket = refl

tally-Holds_example : Holds 1 late
tally-Holds_example = tally-Holds samples 2 late late_bucket

advice :
    generate_tuning_suggestions
      (record {
        total_sells = 25;
        trailing_stop_24h = some (pos 31_000);
        stop_loss_4h = none;
        take_profit_4h = some (pos 20_000);
        time_limit_24h = none;
        early_exit_rates = (4, some (pos 4100)) ∷ [];
      })
      20
    ≡ Suggestion.loosen_trailing_stop ∷ Suggestion.review_regime 4 ∷ []
unfolding generate_tuning_suggestions
advice = refl
