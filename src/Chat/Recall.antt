-- ===== src/Chat/Recall.antt =====
-- What the cache gives back.
use coin_pilot.Base.{ℕ, ◌≡◌, none, [], ◌∷◌, ◌++◌, arith}
use coin_pilot.Base.Text.{Text, text_eq_refl, eq_of_text_eq}
use coin_pilot.Base.Ordered.{IsSame, find}
use coin_pilot.Chat.Settings.{Settings}
use coin_pilot.Chat.Guard.{Question, Cache, same_question}

pub same_question-IsSame : IsSame same_question
same_question-IsSame = record {
  reflexive = λ k. ground (arith, text_eq_refl k.0, text_eq_refl k.1);
  sound = λ k j h. ground (arith, eq_of_text_eq k.0 j.0, eq_of_text_eq k.1 j.1);
}

-- The last entry is the only one of its key.
abbrev pub EndsIn : Question → ℕ × Text → Cache → Type 0
EndsIn key payload cache =
    (front : Cache) × (cache ≡ front ++ (key, payload) ∷ []) × (find same_question key front ≡ none)
