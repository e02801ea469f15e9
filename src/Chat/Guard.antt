-- ===== src/Chat/Guard.antt =====
-- The cache of answers and the cooldown of a session, `_response_cache` and
-- `_session_last_request_ts` of src/agents/router.py. A time is a number of microseconds.
use coin_pilot.Base.{
  ℕ, ◌+◌, ◌-◌, ◌*◌, Bool, ◌&&◌, Option, none, some, List, [], ◌∷◌, length, get_or, leb, ltb,
  if◌then◌else◌,
}
use coin_pilot.Base.Text.{Text, codes, text_eq, strip}
use coin_pilot.Base.Ordered.{find, pop_key, assign, move_to_end}
use coin_pilot.Chat.Settings.{Settings, at_least}

-- The session and the message, and the time of an answer beside it.
abbrev pub Question : Type 0
Question = Text × Text

abbrev pub Cache : Type 0
Cache = List (Question × (ℕ × Text))

abbrev pub same_question : Question → Question → Bool
same_question k j = text_eq k.0 j.0 && text_eq k.1 j.1

pub record Guard : Type 0 where
  pub cache : Cache
  pub last_request : List (Text × ℕ)

-- `max(1, CHAT_CACHE_TTL_SECONDS)` in microseconds, `max(1, CHAT_CACHE_MAX_ENTRIES)`, and
-- `max(0.0, CHAT_SESSION_COOLDOWN_SECONDS)`.
abbrev pub ttl : Settings → ℕ
ttl st = at_least 1 st.cache_ttl_seconds * 1_000_000

abbrev pub max_entries : Settings → ℕ
max_entries st = at_least 1 st.cache_max_entries

abbrev pub cooldown : Settings → ℕ
cooldown st = at_least 0 st.session_cooldown

-- The two loops take from the front.
unfoldable pub drop_expired : ℕ → ℕ → Cache → Cache
drop_expired limit now [] = []
drop_expired limit now ((key, payload) ∷ rest) =
    let later = drop_expired limit now rest in
    if leb now (payload.0 + limit) then (key, payload) ∷ rest else later

unfoldable pub drop_excess : ℕ → Cache → Cache
drop_excess limit [] = []
drop_excess limit (entry ∷ rest) =
    let later = drop_excess limit rest in
    if ltb limit (length (entry ∷ rest)) then later else entry ∷ rest

unfoldable pub cleanup_cache : Settings → ℕ → Cache → Cache
unfolding drop_expired drop_excess
cleanup_cache st now cache = drop_excess (max_entries st) (drop_expired (ttl st) now cache)

unfoldable pub get_cached_response : Settings → ℕ → Question → Cache → Option Text × Cache
unfolding cleanup_cache find pop_key move_to_end
get_cached_response st now key cache₀ =
    let cache = cleanup_cache st now cache₀ in
    elim (find same_question key cache) [
      | none ↦ (none, cache)
      | some payload ↦
          if ltb (payload.0 + ttl st) now
          then (none, pop_key same_question key cache)
          else (some payload.1, move_to_end same_question key cache)
    ]

unfoldable pub set_cached_response : Settings → ℕ → Question → Text → Cache → Cache
unfolding cleanup_cache assign move_to_end
set_cached_response st now key response cache = cleanup_cache st now (
    move_to_end same_question key
      (assign same_question key (now, response) (cleanup_cache st now cache)))

-- The seconds left where the request is blocked.
unfoldable pub is_cooldown_blocked :
    Settings → ℕ → Text → List (Text × ℕ) → Option ℕ × List (Text × ℕ)
unfolding find assign
is_cooldown_blocked st now session last_request =
    let last = get_or (find text_eq session last_request) 0 in
    if ltb 0 (cooldown st) && ltb now (last + cooldown st)
    then (some (last + cooldown st - now), last_request)
    else (none, assign text_eq session now last_request)

-- `None` and a session that is blank are the default one.
abbrev or_default : Text → Text
or_default [] = codes "default"
or_default (c ∷ s) = c ∷ s

unfoldable pub normalize_session_id : Option Text → Text
unfolding strip
normalize_session_id none = codes "default"
normalize_session_id (some session_id) = or_default (strip session_id)

unfoldable pub is_input_too_long : Settings → Text → Bool
is_input_too_long st message = ltb (at_least 1 st.max_input_chars) (length message)
