-- ===== src/ExitPerformance/Suggestions.antt =====
-- `generate_tuning_suggestions_from_summary`.
use coin_pilot.Base.{
  ℕ, Bool, true, false, Option, none, some, List, [], ◌∷◌, ◌++◌, ltb, if◌then◌else◌,
}
use coin_pilot.Number.{Number, ◌≺◌, lit}

pub data Suggestion : Type 0 where
  too_few loosen_trailing_stop loosen_stop_loss raise_take_profit keep_time_limit nothing_to_do :
      Suggestion
  review_regime : ℕ → Suggestion

-- The figures that it reads: averages after the exits of one reason, and the rates of the regimes.
pub record Summary (F : Type 0) : Type 0 where
  pub total_sells : ℕ
  pub trailing_stop_24h : Option F
  pub stop_loss_4h : Option F
  pub take_profit_4h : Option F
  pub time_limit_24h : Option F
  pub early_exit_rates : List (ℕ × Option F)

abbrev note_if : Bool → Suggestion → List Suggestion
note_if true s = s ∷ []
note_if false s = []

abbrev or_nothing : List Suggestion → List Suggestion
or_nothing [] = nothing_to_do ∷ []
or_nothing (s ∷ ss) = s ∷ ss

module _ {F : Type 0} ⦃f : Number F⦄ where
  abbrev pub above : F → Option F → Bool
  above limit none = false
  above limit (some x) = limit ≺ x

  abbrev pub below : F → Option F → Bool
  below limit none = false
  below limit (some x) = x ≺ limit

  abbrev review : List (ℕ × Option F) → List Suggestion
  review [] = []
  review ((regime, rate) ∷ rest) =
      note_if (above (lit 40 2) rate) (review_regime regime) ++ review rest

  unfoldable pub generate_tuning_suggestions : Summary F → ℕ → List Suggestion
  generate_tuning_suggestions x min_samples =
      if ltb x.total_sells min_samples
      then too_few ∷ []
      else or_nothing (
          note_if (above (lit 30 1) x.trailing_stop_24h) loosen_trailing_stop
          ++ note_if (above (lit 10 1) x.stop_loss_4h) loosen_stop_loss
          ++ note_if (above (lit 20 1) x.take_profit_4h) raise_take_profit
          ++ note_if (below (f.neg (lit 20 1)) x.time_limit_24h) keep_time_limit
          ++ review x.early_exit_rates)
