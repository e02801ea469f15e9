-- ===== src/Tools/Review/Streak.antt =====
-- The longest losing streak, and the counts of a review.
use coin_pilot.Base.{
  ℕ, suc, max, ◌∙◌, inl, inr, ◌+◌, ◌≤◌, ◌≡◌, refl, Bool, true, false, List, [], ◌∷◌, foldl, map,
  length, arith,
}
use coin_pilot.Base.Text.{Text}
use coin_pilot.Base.Text.{Text}
use coin_pilot.Base.Result.{ok, Result-cases}
use coin_pilot.Number.{Number, whole, ◌≺◌}
use coin_pilot.Number.Order.{IsOrdered}
use coin_pilot.Number.Format.{Format}
use coin_pilot.Tools.SellTiming.{count_if}
use coin_pilot.Tools.Review.{
  SellResult, Review, loses, streak_step, max_streak, three_improvements, review_of, TradeRow,
  Ledger, reviewed, no_ledger, add_rows, run_strategy_review_tool,
}

-- How many sales lost from the start on.
abbrev pub leading : List Bool → ℕ
leading [] = 0
leading (true ∷ lost) = suc (leading lost)
leading (false ∷ lost) = 0

-- The most that lost one after the other, from any start.
abbrev pub longest_run : List Bool → ℕ
longest_run [] = 0
longest_run (b ∷ lost) = max (leading (b ∷ lost)) (longest_run lost)

leading_longest : (lost : List Bool) → leading lost ≤ longest_run lost
leading_longest [] = omega arith
leading_longest (b ∷ lost) = omega arith

streak_from :
    (lost : List Bool) (longest current : ℕ)
    → current ≤ longest
    → (foldl streak_step (longest, current) lost).0
      ≡ max longest (max (current + leading lost) (longest_run lost))
streak_from [] longest current h = omega arith
streak_from (true ∷ lost) longest current h =
    omega (arith, streak_from lost (max longest (suc current)) (suc current) (omega arith))
streak_from (false ∷ lost) longest current h =
    omega (arith, streak_from lost longest 0 (omega arith), leading_longest lost)

max_streak-longest_run : (lost : List Bool) → max_streak lost ≡ longest_run lost
unfolding max_streak
max_streak-longest_run lost =
    omega (arith, streak_from lost 0 0 (omega arith), leading_longest lost)

three : (items : List Text) → length (three_improvements items) ≡ 3
unfolding three_improvements
three [] = refl
three (a ∷ []) = refl
three (a ∷ b ∷ []) = refl
three (a ∷ b ∷ c ∷ items) = ground arith

module _ {F : Type 0} ⦃n : Number F⦄ ⦃f : Format F⦄ where
  -- What a review says of the sales it is made of.
  pub record Sums (results : List (SellResult F)) (r : Review F) : Type 0 where
    pub streak : r.max_loss_streak ≡ longest_run (map loses results)
    pub streak_bound : r.max_loss_streak ≤ r.loss_count
    pub sides : r.win_count + r.loss_count ≤ r.sell_count
    pub advice : length r.improvements ≡ 3

  leading-count :
      (results : List (SellResult F)) → leading (map loses results) ≤ count_if loses results
  leading-count [] = omega arith
  leading-count (r ∷ results) = ground (arith, leading-count results)

  longest-count :
      (results : List (SellResult F)) → longest_run (map loses results) ≤ count_if loses results
  longest-count [] = omega arith
  longest-count (r ∷ results) = ground (arith, longest-count results, leading-count (r ∷ results))

  sides-count :
      IsOrdered F
      → (results : List (SellResult F))
      → count_if (λ r. whole 0 ≺ r.pnl_krw) results + count_if loses results ≤ length results
  sides-count o [] = omega arith
  sides-count o (r ∷ results) = ground (
    arith,
    sides-count o results,
    o.lt-eq-not-le (whole 0) r.pnl_krw,
    o.lt-eq-not-le r.pnl_krw (whole 0),
    o.le_total r.pnl_krw (whole 0),
  )

  fields :
      (days : ℕ) (results : List (SellResult F)) (notes : List Text) (r : Review F)
      → review_of days results notes ≡ ok r
      → (r.max_loss_streak ≡ max_streak (map loses results))
        × (r.loss_count ≡ count_if loses results)
        × (r.win_count ≡ count_if (λ x. whole 0 ≺ x.pnl_krw) results)
        × (r.sell_count ≡ length results)
        × (length r.improvements ≡ 3)
  unfolding review_of
  fields days results notes r e = grind (arith, three)

  review-Sums :
      IsOrdered F
      → (days : ℕ) (results : List (SellResult F)) (notes : List Text) (r : Review F)
      → review_of days results notes ≡ ok r
      → Sums results r
  review-Sums o days results notes r e =
      let (streak, losses, wins, sells, advice) = fields days results notes r e in
      record {
        streak = streak ∙ max_streak-longest_run (map loses results);
        streak_bound = omega (
          arith,
          streak,
          losses,
          max_streak-longest_run (map loses results),
          longest-count results,
        );
        sides = omega (arith, losses, wins, sells, sides-count o results);
        advice = advice;
      }

  -- Whatever the rows, a review that comes back has exactly three improvements; its longest losing
  -- streak is the most sales in a row that lost, from any start, in the order of the rows, and is
  -- not above the number of losses; and the sales that won and those that lost are together no more
  -- than the sales.
  pub run-Sums :
      IsOrdered F
      → (days : ℕ) (rows : List (TradeRow F)) (r : Review F)
      → run_strategy_review_tool days rows ≡ ok (reviewed r)
      → (ledger : Ledger F) × (add_rows no_ledger rows ≡ ok ledger) × Sums ledger.sell_results r
  unfolding run_strategy_review_tool
  run-Sums o days [] r e = absurd (ground (arith, e))
  run-Sums o days (row ∷ rows) r e = elim (Result-cases (add_rows no_ledger (row ∷ rows))) [
    | inl (x, fails) ↦ absurd (ground (arith, e, fails))
    | inr (ledger, adds) ↦ (
      ledger,
      adds,
      review-Sums o days ledger.sell_results ledger.notes r (ground (arith, e, adds)),
    )
  ]
