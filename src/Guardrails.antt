-- ===== src/Guardrails.antt =====
-- src/agents/guardrails.py: when the AI agents may be asked. An exception of Redis is not modelled.
pub mod Blocks
pub mod Budget
mod Tests
use coin_pilot.Base.{
  ℕ, ◌+◌, ◌*◌, ◌/◌, max, String, Bool, true, false, ◌&&◌, ◌||◌, Option, none, some, List, [], ◌∷◌,
  map, get_or, leb, ltb, ◌==◌, if◌then◌else◌,
}
use coin_pilot.Base.Text.{codes, lower, contains}
use coin_pilot.Redis.{Key, Value, Redis}

-- The keys of an entry configuration that the guardrails read: `none` where `_to_int` falls back.
pub record GuardConfig : Type 0 where
  pub reject_cooldown_min_1 : Option ℕ
  pub reject_cooldown_min_2 : Option ℕ
  pub reject_cooldown_min_3 : Option ℕ
  pub reject_cooldown_window_min : Option ℕ
  pub max_calls_per_hour : Option ℕ
  pub max_calls_per_day : Option ℕ
  pub credit_block_minutes : Option ℕ
  pub error_streak_threshold : Option ℕ
  pub error_block_minutes : Option ℕ

unfoldable pub is_low_credit_error : String → Bool
is_low_credit_error reasoning =
    let text = lower (codes reasoning) in
    contains (codes "credit balance is too low") text
    || contains (codes "insufficient credits") text
    || contains (codes "billing") text

unfoldable pub is_ai_error_reason : String → Bool
is_ai_error_reason reasoning =
    let text = codes reasoning in
    contains (codes "AI Analysis Error") text || contains (codes "Error code:") text

unfoldable pub get_reject_cooldown_minutes : ℕ → GuardConfig → ℕ
get_reject_cooldown_minutes n cfg =
    if leb n 1
    then get_or cfg.reject_cooldown_min_1 5
    else if n == 2
    then get_or cfg.reject_cooldown_min_2 10
    else get_or cfg.reject_cooldown_min_3 15

-- Why a call is blocked, with the seconds left, or the calls used and their limit.
pub data Block : Type 0 where
  global_active cooldown_active : ℕ → Block
  hour_exhausted day_exhausted : ℕ → ℕ → Block

abbrev pub hour_key : ℕ → Key
hour_key now = Key.usage_hour (now / 3600)

abbrev pub day_key : ℕ → Key
day_key now = Key.usage_day (now / 86_400)

abbrev pub hour_limit : GuardConfig → ℕ
hour_limit cfg = get_or cfg.max_calls_per_hour 20

abbrev pub day_limit : GuardConfig → ℕ
day_limit cfg = get_or cfg.max_calls_per_day 120

-- `ex=max(60, minutes * 60)`
abbrev pub seconds : ℕ → ℕ
seconds minutes = max 60 (minutes * 60)

-- A test that blocks returns at once.
infixl 5 ◌>>◌
abbrev ◌>>◌ : Option Block → Option Block → Option Block
none >> k = k
some b >> k = some b

abbrev block_if : Bool → Block → Option Block
block_if true b = some b
block_if false b = none

module _ {S : Type 0} (r : Redis S) where
  -- With no client (`none`) nothing is blocked, and nothing is written.
  unfoldable pub should_block_ai_call : ℕ → Option S → ℕ → GuardConfig → Option Block
  should_block_ai_call now none symbol cfg = none
  should_block_ai_call now (some s) symbol cfg = do
    let block_ttl = r.ttl now Key.global_block s
    let cooldown_ttl = r.ttl now (Key.symbol_cooldown symbol) s
    let hour_used = get_or (r.get now (hour_key now) s) 0
    let day_used = get_or (r.get now (day_key now) s) 0
    block_if (ltb 0 block_ttl) (Block.global_active block_ttl)
    block_if (ltb 0 cooldown_ttl) (Block.cooldown_active cooldown_ttl)
    block_if (leb (hour_limit cfg) hour_used) (Block.hour_exhausted hour_used (hour_limit cfg))
    block_if (leb (day_limit cfg) day_used) (Block.day_exhausted day_used (day_limit cfg))

  -- `incr`, then `expire`.
  unfoldable pub bump : ℕ → Key → ℕ → S → ℕ × S
  bump now k e s = let (n, s') = r.incr now k s in (n, r.expire now k e s')

  unfoldable pub mark_ai_call_started : ℕ → Option S → Option S
  unfolding bump
  mark_ai_call_started now none = none
  mark_ai_call_started now (some s) =
      some (bump now (day_key now) 172_800 (bump now (hour_key now) 7200 s).1).1

  abbrev pub window : GuardConfig → ℕ
  window cfg = seconds (get_or cfg.reject_cooldown_window_min 30)

  -- A rejection counts, and starts a cooldown of the symbol.
  unfoldable pub cool_down : ℕ → ℕ → GuardConfig → S → S
  unfolding bump
  cool_down now symbol cfg s =
      let (n, s') = bump now (Key.reject_count symbol) (window cfg) s in
      let minutes = get_reject_cooldown_minutes n cfg in
      r.set now (Key.symbol_cooldown symbol) (Value.number minutes) (seconds minutes) s'

  abbrev pub credit_seconds : GuardConfig → ℕ
  credit_seconds cfg = seconds (get_or cfg.credit_block_minutes 60)

  abbrev pub error_seconds : GuardConfig → ℕ
  error_seconds cfg = seconds (get_or cfg.error_block_minutes 30)

  -- One error more; enough of them in a row block every call.
  unfoldable pub count_error : ℕ → GuardConfig → S → S
  unfolding bump
  count_error now cfg s =
      let (streak, s') = bump now Key.error_streak 3600 s in
      if leb (get_or cfg.error_streak_threshold 5) streak
      then r.set now Key.global_block Value.error_streak_reached (error_seconds cfg) s'
      else s'

  unfoldable pub after_rejection : ℕ → ℕ → String → GuardConfig → S → S
  unfolding cool_down count_error
  after_rejection now symbol reasoning cfg s₀ =
      let s = cool_down now symbol cfg s₀ in
      if is_low_credit_error reasoning
      then r.set now Key.global_block Value.low_credit (credit_seconds cfg) s
      else if is_ai_error_reason reasoning
      then count_error now cfg s
      else r.delete now Key.error_streak s

  unfoldable pub update_ai_guardrails_after_decision :
      ℕ → Option S → ℕ → Bool → String → GuardConfig → Option S
  update_ai_guardrails_after_decision now none symbol approved reasoning cfg = none
  update_ai_guardrails_after_decision now (some s) symbol true reasoning cfg =
      some (r.delete now Key.error_streak (r.delete now (Key.reject_count symbol) s))
  update_ai_guardrails_after_decision now (some s) symbol false reasoning cfg =
      some (after_rejection now symbol reasoning cfg s)
