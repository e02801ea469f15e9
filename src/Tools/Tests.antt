-- ===== src/Tools/Tests.antt =====
-- The tools on concrete rows. A number x is written `n (10000 * x)`.
use coin_pilot.Base.{ℕ, ◌*◌, ◌≡◌, refl, true, false, none, some, List, [], ◌∷◌, map}
use coin_pilot.Base.Int.{ℤ, pos, ◌+ℤ◌, ◌-ℤ◌, ◌*ℤ◌}
use coin_pilot.Base.Result.{Result, ok}
use coin_pilot.Base.Text.{codes}
use coin_pilot.Number.Fixed.{fixed, fixed_format, fixed_stats, fixed-IsOrdered}
use coin_pilot.Store.{Side}
use coin_pilot.Tools.Market.{compute_rsi}
use coin_pilot.Tools.News.{to_driver_labels, summary_header}
use coin_pilot.Tools.Review.{
  TradeRow, Ledger, Review, ReviewAnswer, reviewed, no_ledger, add_rows, max_streak,
  run_strategy_review_tool,
}
use coin_pilot.Tools.Review.Streak.{Sums, run-Sums}

-- Alternating rises of 2 and falls of 1.
rsi :
    compute_rsi (map (λ x. pos (x * 10_000)) (10 ∷ 12 ∷ 11 ∷ 13 ∷ 12 ∷ [])) 4
    ≡ ok (some (pos 666_667))
unfolding compute_rsi ◌+ℤ◌ ◌-ℤ◌ ◌*ℤ◌
rsi = refl

labels :
    to_driver_labels (codes "ETF" ∷ codes "hack" ∷ codes "breach" ∷ [])
    ≡ codes "기관/ETF 이슈" ∷ codes "보안 사고" ∷ []
unfolding to_driver_labels
labels = refl

header : summary_header (some (codes "요약 주요 이슈: a")) ≡ some (codes "요약")
unfolding summary_header
header = refl

streak : max_streak (true ∷ true ∷ false ∷ true ∷ []) ≡ 2
unfolding max_streak
streak = refl

abbrev trade : Side → ℕ → ℕ → TradeRow ℤ
trade side qty price = record {
  symbol = codes "KRW-BTC";
  side = some side;
  quantity = some (pos (qty * 10_000));
  price = some (pos (price * 10_000));
  ts = some 0;
  regime = none;
  exit_reason = none;
}

abbrev rows : List (TradeRow ℤ)
rows =
    trade Side.buy 1 10
    ∷ trade Side.buy 2 12
    ∷ trade Side.sell 2 11
    ∷ trade Side.sell 1 9
    ∷ trade Side.sell 1 9
    ∷ []

abbrev with_default : Result (ReviewAnswer ℤ) → Review ℤ → Review ℤ
with_default (ok (reviewed r)) d = r
with_default _ d = d

abbrev nothing : Review ℤ
nothing = record {
  days = 14;
  sell_count = 0;
  win_count = 0;
  loss_count = 0;
  win_rate = pos 0;
  total_realized_pnl_krw = pos 0;
  avg_pnl_pct = pos 0;
  max_loss_streak = 0;
  by_regime = [];
  by_exit_reason = [];
  strengths = [];
  weaknesses = [];
  improvements = [];
  notes = [];
}

abbrev review : Review ℤ
review = with_default (run_strategy_review_tool 14 rows) nothing

is_reviewed : run_strategy_review_tool 14 rows ≡ ok (reviewed review)
unfolding run_strategy_review_tool ◌+ℤ◌ ◌-ℤ◌ ◌*ℤ◌
is_reviewed = refl

-- The last sale finds no lot.
counts : (review.sell_count ≡ 2) × (review.loss_count ≡ 1) × (review.max_loss_streak ≡ 1)
unfolding run_strategy_review_tool ◌+ℤ◌ ◌-ℤ◌ ◌*ℤ◌
counts = (refl, refl, refl)

run-Sums_example :
    (ledger : Ledger ℤ) × (add_rows no_ledger rows ≡ ok ledger) × Sums ledger.sell_results review
run-Sums_example = run-Sums fixed-IsOrdered 14 rows review is_reviewed
