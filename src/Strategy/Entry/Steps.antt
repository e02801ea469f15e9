-- ===== src/Strategy/Entry/Steps.antt =====
-- What an entry check reads and returns, and its early returns: a check goes on, or rejects with
-- the reason and the checks passed so far.
use coin_pilot.Base.{Bool, true, false, Option, none, some, List, [], ◌∷◌, ◌++◌}
use coin_pilot.Strategy.Config.{Regime, MaCondition}

-- The dict of `get_all_indicators`, with the keys that the bot adds.
pub record Indicators (W : Type 0) : Type 0 where
  pub regime : Regime
  pub rsi : Option W
  pub rsi_short : Option W
  pub rsi_short_prev : Option W
  pub rsi_short_min_lookback : Option W
  pub ma_trend : Option W
  pub vol_ratio : Option W
  pub recent_vol_ratios : List W
  pub close : Option W
  pub bb_lower : Option W
  pub bb_touch_recovery : Bool

pub data Reason (W : Type 0) : Type 0 where
  rsi14_missing rsi7_missing ma_missing volume_surge waiting_bb_recovery : Reason W
  rsi14_high waiting_oversold waiting_trend : W → W → Reason W
  waiting_rebound : W → W → W → Reason W
  bounce_small below_bb : W → Reason W
  volume_low : Option W → Reason W

pub data Check (W : Type 0) : Type 0 where
  market_regime : Regime → Check W
  rsi14_ok rsi7_recovered : W → W → Check W
  bounce_ok bb_ok all_passed : Check W
  ma_ok : MaCondition → Check W
  volume_ok : Option W → Check W

-- The dict with `valid`, `reason` and `passed_checks`; an empty reason is `none`.
pub record Verdict (W : Type 0) : Type 0 where
  pub valid : Bool
  pub reason : Option (Reason W)
  pub passed_checks : List (Check W)

pub data Outcome (W A : Type 0) : Type 0 where
  go : A → List (Check W) → Outcome W A
  reject : Reason W → List (Check W) → Outcome W A

abbrev pub Eval : Type 0 → Type 0 → Type 0
Eval W A = List (Check W) → Outcome W A

module _ {W A B : Type 0} where
  abbrev pub continue : Outcome W A → (A → Eval W B) → Outcome W B
  continue (Outcome.go a passed) f = f a passed
  continue (Outcome.reject r passed) f = Outcome.reject r passed

  infixl 5 ◌>>=◌ ◌>>◌
  abbrev pub ◌>>=◌ : Eval W A → (A → Eval W B) → Eval W B
  ◌>>=◌ m f passed = continue (m passed) f

  abbrev pub ◌>>◌ : Eval W A → Eval W B → Eval W B
  m >> k = m >>= λ _. k

module _ {W : Type 0} where
  -- `passed_checks.append(check)`
  abbrev pub note : Check W → Eval W Unit
  note c passed = Outcome.go tt (passed ++ c ∷ [])

  -- `if test: return {"valid": False, "reason": …}`
  abbrev pub reject_if : Bool → Reason W → Eval W Unit
  reject_if true r passed = Outcome.reject r passed
  reject_if false r passed = Outcome.go tt passed

  abbrev pub verdict : Outcome W Unit → Verdict W
  verdict (Outcome.go _ passed) = record { valid = true; reason = none; passed_checks = passed }
  verdict (Outcome.reject r passed) = record {
    valid = false;
    reason = some r;
    passed_checks = passed;
  }

  abbrev pub finish : Eval W Unit → Verdict W
  finish m = verdict (m [])

module _ {W A : Type 0} where
  -- `if value is None: return …`
  abbrev pub need : Option A → Reason W → Eval W A
  need none r passed = Outcome.reject r passed
  need (some a) r passed = Outcome.go a passed
