-- ===== src/Chat/Spacing.antt =====
-- The cooldown of a session holds through any steps.
use coin_pilot.Base.{
  ℕ, ◌+◌, ◌≤◌, ◌<◌, ◌≡◌, refl, none, some, Option-cases, inl, inr, List, [], ◌∷◌, get_or, arith,
}
use coin_pilot.Base.Text.{Text, text_eq, text_eq_refl, eq_of_text_eq}
use coin_pilot.Base.Ordered.{IsSame, find, find-assign}
use coin_pilot.Chat.Settings.{Settings}
use coin_pilot.Chat.Guard.{Guard, cooldown, is_cooldown_blocked}
use coin_pilot.Chat.Steps.{Step, look, ask, keep, run_step, lets_through, admitted}

pub text_eq-IsSame : IsSame text_eq
text_eq-IsSame = record { reflexive = text_eq_refl; sound = eq_of_text_eq }

-- Each time is at least `gap` after the one before it, the first after `last`.
abbrev pub Spaced : ℕ → ℕ → List ℕ → Type 0
Spaced gap last [] = Unit
Spaced gap last (t ∷ times) = (last + gap ≤ t) × Spaced gap t times

abbrev pub last_of : Text → Guard → ℕ
last_of session g = get_or (find text_eq session g.last_request) 0

-- A step that lets the session through comes after the cooldown, and is remembered.
step_through :
    (st : Settings) (session : Text) (s : Step) (g : Guard) (t : ℕ)
    → lets_through st session s g ≡ some t
    → 0 < cooldown st
    → (last_of session g + cooldown st ≤ t) × (last_of session (run_step st s g) ≡ t)
unfolding is_cooldown_blocked run_step
step_through st session (ask u other) g t h pos_ = ground (
  arith,
  find-assign text_eq text_eq-IsSame other session u g.last_request,
  eq_of_text_eq session other,
)
step_through st session (look u key) g t h pos_ = absurd (ground arith)
step_through st session (keep u key response) g t h pos_ = absurd (ground arith)

-- Any other step leaves the time of the session's last request.
step_past :
    (st : Settings) (session : Text) (s : Step) (g : Guard)
    → lets_through st session s g ≡ none
    → last_of session (run_step st s g) ≡ last_of session g
unfolding is_cooldown_blocked run_step
step_past st session (ask u other) g h =
    ground (arith, find-assign text_eq text_eq-IsSame other session u g.last_request)
step_past st session (look u key) g h = refl
step_past st session (keep u key response) g h = refl

-- Through any steps of any requests side by side, and however the clock moves: where the setting
-- of the cooldown is above zero, two requests of a session that are let through one after the
-- other are at least the cooldown apart, as is the first from the last one before.
pub admitted-Spaced :
    (st : Settings) (session : Text) (steps : List Step) (g : Guard)
    → 0 < cooldown st
    → Spaced (cooldown st) (last_of session g) (admitted st session steps g)
unfolding admitted
admitted-Spaced st session [] g h = tt
admitted-Spaced st session (s ∷ steps) g h =
    let later = admitted-Spaced st session steps (run_step st s g) h in
    elim (Option-cases (lets_through st session s g)) [
      | inl none_ ↦ rw (admitted, none_, ← step_past st session s g none_) later
      | inr (t, e) ↦
          let (after, now_) = step_through st session s g t e h in
          rw (admitted, e) (after, rw (← now_) later)
    ]
