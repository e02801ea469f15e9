-- ===== src/Chat/Steps.antt =====
-- Requests side by side: what they do under the lock of src/agents/router.py, step by step.
use coin_pilot.Base.{ℕ, ◌&&◌, Option, none, some, List, [], ◌∷◌, is_none, if◌then◌else◌}
use coin_pilot.Base.Text.{Text, text_eq}
use coin_pilot.Base.Ordered.{assign}
use coin_pilot.Chat.Settings.{Settings}
use coin_pilot.Chat.Guard.{
  Question, Cache, same_question, Guard, get_cached_response, set_cached_response,
  is_cooldown_blocked,
}

-- A step at a time: to look a question up, to ask for leave, to keep an answer.
pub data Step : Type 0 where
  look : ℕ → Question → Step
  ask : ℕ → Text → Step
  keep : ℕ → Question → Text → Step

abbrev pub no_requests : Guard
no_requests = record { cache = []; last_request = [] }

unfoldable pub run_step : Settings → Step → Guard → Guard
unfolding get_cached_response set_cached_response is_cooldown_blocked
run_step st (look t key) g = record g { cache = (get_cached_response st t key g.cache).1 }
run_step st (ask t session) g = record g {
  last_request = (is_cooldown_blocked st t session g.last_request).1;
}
run_step st (keep t key response) g = record g {
  cache = set_cached_response st t key response g.cache;
}

unfoldable pub run : Settings → List Step → Guard → Guard
unfolding run_step
run st [] g = g
run st (s ∷ steps) g = run st steps (run_step st s g)

-- Every answer that was ever kept, the latest of each key.
abbrev pub noted : Step → Cache → Cache
noted (look t key) h = h
noted (ask t session) h = h
noted (keep t key response) h = assign same_question key (t, response) h

unfoldable pub history : List Step → Cache → Cache
unfolding assign
history [] h = h
history (s ∷ steps) h = history steps (noted s h)

-- Whether the step lets a request of the session through.
abbrev pub lets_through : Settings → Text → Step → Guard → Option ℕ
lets_through st session (look t key) g = none
lets_through st session (keep t key response) g = none
lets_through st session (ask t other) g =
    if text_eq session other && is_none (is_cooldown_blocked st t other g.last_request).0
    then some t
    else none

abbrev pub also : Option ℕ → List ℕ → List ℕ
also none times = times
also (some t) times = t ∷ times

-- The times of the requests of a session that are let through.
unfoldable pub admitted : Settings → Text → List Step → Guard → List ℕ
unfolding run_step
admitted st session [] g = []
admitted st session (s ∷ steps) g =
    also (lets_through st session s g) (admitted st session steps (run_step st s g))
