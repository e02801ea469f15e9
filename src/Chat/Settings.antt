-- ===== src/Chat/Settings.antt =====
-- The settings of src/agents/router.py, read from the environment.
use coin_pilot.Base.{ℕ, max, Bool, none, some, List, [], ◌∷◌, any, String, get_or}
use coin_pilot.Base.Int.{ℤ, pos, negsuc}
use coin_pilot.Base.Env.{Environment}
use coin_pilot.Base.Text.{codes, text_eq, strip, lower}

-- The seconds of the cooldown are counted in microseconds here.
pub record Settings : Type 0 where
  pub session_cooldown : ℤ
  pub cache_ttl_seconds : ℤ
  pub cache_max_entries : ℤ
  pub max_input_chars : ℤ
  pub max_output_chars : ℤ
  pub enable_premium_review : Bool
  pub premium_review_min_query_len : ℤ

-- `max(n, z)`
abbrev pub at_least : ℕ → ℤ → ℕ
at_least n (pos m) = max n m
at_least n (negsuc m) = n

abbrev pub truth_words : List String
truth_words = "1" ∷ "true" ∷ "yes" ∷ "on" ∷ "y" ∷ []

unfoldable pub env_bool : Environment → String → Bool → Bool
unfolding strip
env_bool env name default = elim (env.getenv name) [
  | none ↦ default
  | some raw ↦ any (λ word. text_eq (lower (strip raw)) (codes word)) truth_words
]

-- A missing text is the default's, and parses to it.
unfoldable pub env_int : Environment → String → ℤ → ℤ
env_int env name default = elim (env.getenv name) [
  | none ↦ default
  | some raw ↦ get_or (env.parse_int raw) default
]

unfoldable pub env_float : Environment → String → ℤ → ℤ
env_float env name default = elim (env.getenv name) [
  | none ↦ default
  | some raw ↦ get_or (env.parse_float raw) default
]

unfoldable pub settings : Environment → Settings
unfolding env_bool env_int env_float
settings env = record {
  session_cooldown = env_float env "CHAT_SESSION_COOLDOWN_SECONDS" (pos 1_500_000);
  cache_ttl_seconds = env_int env "CHAT_CACHE_TTL_SECONDS" (pos 300);
  cache_max_entries = env_int env "CHAT_CACHE_MAX_ENTRIES" (pos 256);
  max_input_chars = env_int env "CHAT_MAX_INPUT_CHARS" (pos 600);
  max_output_chars = env_int env "CHAT_MAX_OUTPUT_CHARS" (pos 2200);
  enable_premium_review = env_bool env "CHAT_ENABLE_PREMIUM_REVIEW" Bool.true;
  premium_review_min_query_len = env_int env "CHAT_PREMIUM_REVIEW_MIN_QUERY_LEN" (pos 28);
}
