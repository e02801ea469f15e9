-- ===== src/Chat/Answers.antt =====
-- Every answer ends with the disclaimer and keeps to the budget of characters.
use mathlib.Core.List.{append_assoc}
use coin_pilot.Base.{
  ℕ, ◌+◌, ◌-◌, max, ◌≤◌, ◌≡◌, refl, sym, ◌∙◌, ap, Bool-cases, inl, inr, ◌++◌, [], ◌∷◌, length, take,
  leb, arith,
}
use coin_pilot.Base.Text.{Text, rstrip, newline, length-append, length-rstrip, length-take}
use coin_pilot.Chat.Settings.{Settings}
use coin_pilot.Chat.Intents.{Intent, scenario_required}
use coin_pilot.Chat.Footer.{
  safety_disclaimer, scenario_note, trunc_note, max_chars, footer_of, fit_body, with_footer,
  ensure_safety_footer,
}

-- The text is something, and then the disclaimer.
abbrev pub EndsSafely : Text → Type 0
EndsSafely answer = (body : Text) × (answer ≡ body ++ safety_disclaimer)

pub record IsFinished (st : Settings) (answer : Text) : Type 0 where
  pub ends : EndsSafely answer
  pub fits : length answer ≤ max_chars st

EndsSafely-append : (s t : Text) → EndsSafely t → EndsSafely (s ++ t)
EndsSafely-append s t (body, e) = (s ++ body, ap (λ x. s ++ x) e ∙ sym (append_assoc s body _))

footer-EndsSafely : (intent : Intent) → EndsSafely (footer_of intent)
footer-EndsSafely intent = elim (Bool-cases (scenario_required intent)) [
  | inl h ↦ rw h (scenario_note ++ newline, refl)
  | inr h ↦ rw h ([], refl)
]

-- A footer leaves room for 40 characters and the note within the least budget.
footer-length : (intent : Intent) → length (footer_of intent) + length trunc_note + 42 ≤ 200
footer-length intent = elim (Bool-cases (scenario_required intent)) [
  | inl h ↦ rw h (omega arith)
  | inr h ↦ rw h (omega arith)
]

max_chars-least : (st : Settings) → 200 ≤ max_chars st
max_chars-least st = ground arith

fit_body-EndsSafely :
    (budget : ℕ) (text footer : Text) → EndsSafely footer → EndsSafely (fit_body budget text footer)
fit_body-EndsSafely budget text footer e =
    let room = max 40 (budget - length footer - length trunc_note - 2) in
    elim (Bool-cases (leb (length text + 1 + length footer) budget)) [
      | inl h ↦ rw h (EndsSafely-append (text ++ newline) footer e)
      | inr h ↦
          rw h (
            EndsSafely-append (rstrip (take room text) ++ newline ++ trunc_note ++ newline) footer
              e)
    ]

cut_length :
    (room : ℕ) (text footer : Text)
    → length (rstrip (take room text) ++ newline ++ trunc_note ++ newline ++ footer)
      ≤ room + 2 + length trunc_note + length footer
cut_length room text footer =
    let body = rstrip (take room text) in
    omega (
      arith,
      length-append (body ++ newline ++ trunc_note ++ newline) footer,
      length-append (body ++ newline ++ trunc_note) newline,
      length-append (body ++ newline) trunc_note,
      length-append body newline,
      length-rstrip (take room text),
      length-take room text,
    )

fit_body-length :
    (budget : ℕ) (text footer : Text)
    → length footer + length trunc_note + 42 ≤ budget
    → length (fit_body budget text footer) ≤ budget
fit_body-length budget text footer h =
    let room = max 40 (budget - length footer - length trunc_note - 2) in
    elim (Bool-cases (leb (length text + 1 + length footer) budget)) [
      | inl fits ↦
          rw fits
            (ground (arith, length-append (text ++ newline) footer, length-append text newline))
      | inr over ↦ rw over (ground (arith, cut_length room text footer))
    ]

with_footer-IsFinished :
    (st : Settings) (text : Text) (intent : Intent)
    → IsFinished st (with_footer (max_chars st) text (footer_of intent))
with_footer-IsFinished st [] intent = record {
  ends = footer-EndsSafely intent;
  fits = omega (arith, footer-length intent, max_chars-least st);
}
with_footer-IsFinished st (c ∷ text) intent = record {
  ends = fit_body-EndsSafely (max_chars st) (c ∷ text) _ (footer-EndsSafely intent);
  fits =
      fit_body-length (max_chars st) (c ∷ text) (footer_of intent)
        (omega (arith, footer-length intent, max_chars-least st));
}

-- Whatever the response and the intent, the answer ends with the safety disclaimer, and it has no
-- more characters than the setting allows, which counts as 200 at least.
pub ensure_safety_footer-IsFinished :
    (st : Settings) (response : Text) (intent : Intent)
    → IsFinished st (ensure_safety_footer st response intent)
unfolding ensure_safety_footer
ensure_safety_footer-IsFinished st response intent = with_footer-IsFinished st _ intent
