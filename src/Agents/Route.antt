-- ===== src/Agents/Route.antt =====
-- The choice of the model in src/agents/factory.py.
pub mod Canary
use coin_pilot.Base.{
  ℕ, ◌%◌, min, Bool, true, false, not, ◌||◌, Option, none, some, List, [], ◌∷◌, ◌++◌, String, any,
  get_or, leb, ltb, if◌then◌else◌,
}
use coin_pilot.Base.Int.{ℤ, pos, negsuc}
use coin_pilot.Base.Env.{Environment}
use coin_pilot.Base.Text.{Text, codes, text_eq, strip, lower}

pub data Provider : Type 0 where
  anthropic openai : Provider

pub data RouteLabel : Type 0 where
  primary primary_fallback canary : RouteLabel

pub record Route : Type 0 where
  pub provider : Provider
  pub model : Text
  pub route_label : RouteLabel
  pub canary_enabled : Bool
  pub canary_percent : ℕ
  pub bucket : ℕ
  pub seed : Text

abbrev nonempty : Text → Bool
nonempty [] = false
nonempty (c ∷ s) = true

-- `raw or default`
abbrev or_text : Option Text → Text → Text
or_text none default = default
or_text (some []) default = default
or_text (some (c ∷ s)) default = c ∷ s

unfoldable pub normalize_provider : Option Text → Provider
unfolding strip
normalize_provider raw =
    if text_eq (lower (strip (or_text raw (codes "anthropic")))) (codes "openai")
    then Provider.openai
    else Provider.anthropic

abbrev true_words : List String
true_words = "1" ∷ "true" ∷ "yes" ∷ "on" ∷ []

unfoldable pub read_bool_env : Environment → String → Bool → Bool
unfolding strip
read_bool_env env name default = elim (env.getenv name) [
  | none ↦ default
  | some raw ↦ any (λ word. text_eq (lower (strip raw)) (codes word)) true_words
]

abbrev key_name : Provider → String
key_name Provider.openai = "OPENAI_API_KEY"
key_name Provider.anthropic = "ANTHROPIC_API_KEY"

unfoldable pub is_provider_configured : Environment → Provider → Bool
unfolding strip
is_provider_configured env provider = nonempty (strip (get_or (env.getenv (key_name provider)) []))

abbrev other_provider : Provider → Provider
other_provider Provider.anthropic = Provider.openai
other_provider Provider.openai = Provider.anthropic

-- The provider is normalized by the caller.
unfoldable pub resolve_provider_with_fallback : Environment → Provider → Provider
unfolding is_provider_configured
resolve_provider_with_fallback env provider =
    if is_provider_configured env provider
    then provider
    else if is_provider_configured env (other_provider provider)
    then other_provider provider
    else provider

abbrev dev_model : Text
dev_model = codes "claude-haiku-4-5-20251001"

abbrev prod_model : Text
prod_model = codes "claude-sonnet-4-5-20250929"

unfoldable pub get_default_model_name : Environment → Text
unfolding strip
get_default_model_name env =
    if text_eq (lower (strip (get_or (env.getenv "LLM_MODE") (codes "dev")))) (codes "prod")
    then prod_model
    else dev_model

abbrev getenv_or : Environment → String → Text → Text
getenv_or env name default = get_or (env.getenv name) default

-- `max(0, min(20, value))`
abbrev clamp_percent : ℤ → ℕ
clamp_percent (pos n) = min 20 n
clamp_percent (negsuc n) = 0

unfoldable pub parse_canary_percent : Environment → ℕ → ℕ
unfolding strip
parse_canary_percent env default_percent = elim (env.getenv "AI_CANARY_PERCENT") [
  | none ↦ clamp_percent (pos default_percent)
  | some raw ↦ clamp_percent (get_or (env.parse_int (strip raw)) (pos default_percent))
]

-- The timestamp of the last candle, then that of the indicators; `none` where there is none.
unfoldable pub extract_signal_marker : Option Text → Option Text → Text
extract_signal_marker (some (c ∷ s)) ts = c ∷ s
extract_signal_marker _ (some (c ∷ s)) = c ∷ s
extract_signal_marker _ _ = codes "no-signal-timestamp"

abbrev llm_provider : Environment → Provider
llm_provider env = normalize_provider (some (getenv_or env "LLM_PROVIDER" (codes "anthropic")))

unfoldable pub get_primary_ai_decision_route : Environment → Route
unfolding normalize_provider resolve_provider_with_fallback get_default_model_name
get_primary_ai_decision_route env =
    let named =
      getenv_or env "AI_DECISION_PRIMARY_PROVIDER"
        (getenv_or env "LLM_PROVIDER" (codes "anthropic")) in
    record {
      provider = resolve_provider_with_fallback env (normalize_provider (some named));
      model =
          getenv_or env "AI_DECISION_PRIMARY_MODEL"
            (getenv_or env "LLM_MODEL" (get_default_model_name env));
      route_label = RouteLabel.primary;
      canary_enabled = false;
      canary_percent = 0;
      bucket = 0;
      seed = codes "primary-default";
    }

-- The provider and model of the other roles; `premium` is for the review of a strategy.
unfoldable pub get_model_identity : Environment → Bool → Provider × Text
unfolding normalize_provider resolve_provider_with_fallback get_default_model_name
get_model_identity env premium = (
  resolve_provider_with_fallback env (llm_provider env),
  if premium
      then getenv_or env "LLM_PREMIUM_MODEL" prod_model
      else getenv_or env "LLM_MODEL" (get_default_model_name env),
)

-- The number of the first eight digits of the SHA-256 of a text.
module _ (sha256 : Text → ℕ) where
  abbrev pub deterministic_bucket : Text → ℕ
  deterministic_bucket seed = sha256 seed % 100

  unfoldable pub select_ai_decision_route :
      Environment → Text → Text → Option Text → Option Text → Route
  unfolding get_primary_ai_decision_route read_bool_env parse_canary_percent extract_signal_marker
      normalize_provider is_provider_configured
  select_ai_decision_route env symbol strategy_name candle_ts indicator_ts =
      let enabled = read_bool_env env "AI_CANARY_ENABLED" false in
      let percent = parse_canary_percent env 10 in
      let marker = extract_signal_marker candle_ts indicator_ts in
      let seed = symbol ++ codes "|" ++ strategy_name ++ codes "|" ++ marker in
      let bucket = deterministic_bucket seed in
      let chosen =
        normalize_provider (some (getenv_or env "AI_CANARY_PROVIDER" (codes "openai"))) in
      let base : Route = record (get_primary_ai_decision_route env) {
        canary_enabled = enabled;
        canary_percent = percent;
        bucket = bucket;
        seed = seed;
      } in
      if not enabled || leb percent 0
      then base
      else if leb percent bucket
      then record base { canary_enabled = true }
      else if not (is_provider_configured env chosen)
      then record base { route_label = RouteLabel.primary_fallback; canary_enabled = true }
      else record {
        provider = chosen;
        model = getenv_or env "AI_CANARY_MODEL" (codes "gpt-4o-mini");
        route_label = RouteLabel.canary;
        canary_enabled = true;
        canary_percent = percent;
        bucket = bucket;
        seed = seed;
      }
