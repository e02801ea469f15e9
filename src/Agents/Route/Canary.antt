-- ===== src/Agents/Route/Canary.antt =====
-- When the model under trial is asked.
use coin_pilot.Base.{
  ℕ, ◌≤◌, ◌<◌, ◌≡◌, true, false, Option, some, ◌++◌, ◌↔◌, Option-cases, inl, inr, get_or, arith,
}
use coin_pilot.Base.Int.{ℤ, pos, negsuc}
use coin_pilot.Base.Env.{Environment}
use coin_pilot.Base.Text.{Text, codes, strip}
use coin_pilot.Agents.Route.{
  RouteLabel, normalize_provider, read_bool_env, is_provider_configured, getenv_or, clamp_percent,
  parse_canary_percent, extract_signal_marker, deterministic_bucket, get_primary_ai_decision_route,
  select_ai_decision_route,
}

clamp_percent-bound : (z : ℤ) → clamp_percent z ≤ 20
clamp_percent-bound (pos n) = omega arith
clamp_percent-bound (negsuc n) = omega arith

percent-bound : (env : Environment) (n : ℕ) → parse_canary_percent env n ≤ 20
unfolding parse_canary_percent
percent-bound env n = elim (Option-cases (env.getenv "AI_CANARY_PERCENT")) [
  | inl h ↦ rw (parse_canary_percent, h) (clamp_percent-bound (pos n))
  | inr (raw, h) ↦
      rw (parse_canary_percent, h)
        (clamp_percent-bound (get_or (env.parse_int (strip raw)) (pos n)))
]

-- The trial is on, the signal is in its share of at most 20 in 100, and there is a key.
pub record OnTrial (sha256 : Text → ℕ) (env : Environment) (seed : Text) : Type 0 where
  pub on : read_bool_env env "AI_CANARY_ENABLED" false ≡ true
  pub share : deterministic_bucket sha256 seed < parse_canary_percent env 10
  pub at_most : parse_canary_percent env 10 ≤ 20
  pub key :
      is_provider_configured env
        (normalize_provider (some (getenv_or env "AI_CANARY_PROVIDER" (codes "openai"))))
      ≡ true

module _ (sha256 : Text → ℕ) (env : Environment) (symbol strategy_name : Text)
    (candle_ts indicator_ts : Option Text) where
  abbrev pub seed_of : Text
  seed_of =
      symbol
      ++ codes "|"
      ++ strategy_name
      ++ codes "|"
      ++ extract_signal_marker candle_ts indicator_ts

  -- The model under trial is asked exactly when the trial is on, the signal's bucket of a hundred
  -- is under the percentage, which is never above 20, and the provider under trial has a key.
  -- The bucket hangs on nothing but the symbol, the strategy and the time of the signal.
  pub canary_iff :
      ((select_ai_decision_route sha256 env symbol strategy_name candle_ts indicator_ts).route_label
        ≡ RouteLabel.canary)
      ↔ OnTrial sha256 env seed_of
  unfolding select_ai_decision_route get_primary_ai_decision_route
  canary_iff = (
    λ h. record {
      on = ground (arith, h);
      share = ground (arith, h);
      at_most = percent-bound env 10;
      key = ground (arith, h);
    },
    λ t. ground (arith, t.on, t.share, t.key),
  )
