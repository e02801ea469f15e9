-- ===== src/Chat/Process/Finished.antt =====
-- Every answer of the chatbot is finished, also one out of the cache.
use coin_pilot.Base.{
  ◌≡◌, false, Bool-cases, Option, some, Option-cases, inl, inr, [], ◌∷◌, ℕ, ltb, ◌+◌, arith,
}
use coin_pilot.Base.Result.{Exn, Result-cases}
use coin_pilot.Base.Text.{Text, strip}
use coin_pilot.Base.Ordered.{
  All, find, pop_key, move_to_end, move_to_end-assign, All-find, All-pop_key, All-last, All-map,
}
use coin_pilot.Number.{Number, lit}
use coin_pilot.Chat.Intents.{Intent}
use coin_pilot.Number.Format.{Format}
use coin_pilot.Chat.Settings.{Settings}
use coin_pilot.Chat.Guard.{
  Question, Cache, same_question, Guard, ttl, cleanup_cache, get_cached_response,
  set_cached_response, is_cooldown_blocked, is_input_too_long, normalize_session_id,
}
use coin_pilot.Chat.Recall.{same_question-IsSame}
use coin_pilot.Chat.History.{All-cleanup}
use coin_pilot.Chat.Answers.{IsFinished, ensure_safety_footer-IsFinished}
use coin_pilot.Chat.Process.{
  Sources, Moments, blank, too_late, failed, too_soon, too_long, run_graph, answer_graph,
  answer_uncached, answer_looked, answer_message, process_chat,
}

-- Every answer in the cache is finished.
abbrev pub KeepsFinished : Settings → Cache → Type 0
KeepsFinished st = All (λ e. IsFinished st e.1.1)

-- A finished answer, and what it leaves.
abbrev pub EndsFinished : Settings → Text × Guard → Type 0
EndsFinished st done = IsFinished st done.0 × KeepsFinished st done.1.cache

module _ (st : Settings) where
  pop-Keeps :
      (k : Question) (cache : Cache)
      → KeepsFinished st cache
      → KeepsFinished st (pop_key same_question k cache)
  pop-Keeps k cache a =
      All-pop_key same_question same_question-IsSame (λ e. IsFinished st e.1.1) k cache
        (All-map _ (λ e. same_question k e.0 ≡ false → IsFinished st e.1.1) cache (λ e p _. p) a)

  moved-Keeps :
      (k : Question) (v : ℕ × Text) (cache : Cache)
      → find same_question k cache ≡ some v
      → KeepsFinished st cache
      → KeepsFinished st (move_to_end same_question k cache)
  unfolding move_to_end
  moved-Keeps k v cache e a =
      rw (move_to_end, e)
        (All-last _ (pop_key same_question k cache) (k, v) (pop-Keeps k cache a)
          (All-find same_question same_question-IsSame (λ x. IsFinished st x.1.1) k v cache a e))

  get-Keeps :
      (now : ℕ) (k : Question) (cache : Cache)
      → KeepsFinished st cache
      → KeepsFinished st (get_cached_response st now k cache).1
  unfolding get_cached_response
  get-Keeps now k cache₀ a =
      let cache = cleanup_cache st now cache₀ in
      let a' = All-cleanup _ st now cache₀ a in
      elim (Option-cases (find same_question k cache)) [
        | inl none_ ↦ rw (get_cached_response, none_) a'
        | inr (v, e) ↦ elim (Bool-cases (ltb (v.0 + ttl st) now)) [
          | inl old ↦ rw (get_cached_response, e, old) (pop-Keeps k cache a')
          | inr fresh ↦ rw (get_cached_response, e, fresh) (moved-Keeps k v cache e a')
        ]
      ]

  get-Finished :
      (now : ℕ) (k : Question) (cache : Cache) (response : Text)
      → KeepsFinished st cache
      → (get_cached_response st now k cache).0 ≡ some response
      → IsFinished st response
  unfolding get_cached_response
  get-Finished now k cache₀ response a h =
      let cache = cleanup_cache st now cache₀ in
      let a' = All-cleanup _ st now cache₀ a in
      elim (Option-cases (find same_question k cache)) [
        | inl none_ ↦ absurd (ground (arith, none_))
        | inr (v, e) ↦
            let same : v.1 ≡ response = ground (arith, e) in
            rw (← same) (
              All-find same_question same_question-IsSame (λ x. IsFinished st x.1.1) k v cache a' e)
      ]

  set-Keeps :
      (now : ℕ) (k : Question) (response : Text) (cache : Cache)
      → IsFinished st response
      → KeepsFinished st cache
      → KeepsFinished st (set_cached_response st now k response cache)
  unfolding set_cached_response
  set-Keeps now k response cache₀ p a =
      let cache = cleanup_cache st now cache₀ in
      All-cleanup _ st now _ (
        rw (move_to_end-assign same_question same_question-IsSame k (now, response) cache) (
          All-last _ (pop_key same_question k cache) (k, (now, response))
            (pop-Keeps k cache (All-cleanup _ st now cache₀ a)) p))

  module _ {F : Type 0} ⦃n : Number F⦄ ⦃f : Format F⦄ (exn_text : Exn → Text) where
    graph-Finished :
        (tools : Sources F) (at : Moments) (session message : Text) (g : Guard)
        → KeepsFinished st g.cache
        → EndsFinished st (answer_graph st exn_text tools at session message g)
    unfolding answer_graph
    graph-Finished tools at session message g a = elim (Bool-cases at.timed_out) [
      | inl timeout ↦
          rw (answer_graph, timeout)
            (ensure_safety_footer-IsFinished st too_late Intent.general_chat, a)
      | inr timely ↦ elim (Result-cases (run_graph st tools message)) [
        | inl (x, e) ↦
            rw (answer_graph, timely, e)
              (ensure_safety_footer-IsFinished st (failed (exn_text x)) Intent.general_chat, a)
        | inr (r, e) ↦
            let p = ensure_safety_footer-IsFinished st r.0 r.1 in
            rw (answer_graph, timely, e) (p, set-Keeps at.keep (session, message) _ g.cache p a)
      ]
    ]

    uncached-Finished :
        (tools : Sources F) (at : Moments) (session message : Text) (g : Guard)
        → KeepsFinished st g.cache
        → EndsFinished st (answer_uncached st exn_text tools at session message g)
    unfolding answer_uncached
    uncached-Finished tools at session message g a =
        elim (Option-cases (is_cooldown_blocked st at.ask session g.last_request).0) [
          | inl free ↦ rw (answer_uncached, free) (graph-Finished tools at session message _ a)
          | inr (left, e) ↦
              rw (answer_uncached, e)
                (
                  ensure_safety_footer-IsFinished st (too_soon (f.fixed1 (lit left 6)))
                      Intent.general_chat,
                  a,
                )
        ]

    looked-Finished :
        (tools : Sources F) (at : Moments) (session message : Text) (g : Guard)
        → KeepsFinished st g.cache
        → EndsFinished st (answer_looked st exn_text tools at session message g)
    unfolding answer_looked
    looked-Finished tools at session message g a =
        let k : Question = (session, message) in
        let kept = get-Keeps at.look k g.cache a in
        elim (Option-cases (get_cached_response st at.look k g.cache).0) [
          | inl miss ↦ rw (answer_looked, miss) (uncached-Finished tools at session message _ kept)
          | inr (r, hit) ↦ rw (answer_looked, hit) (get-Finished at.look k g.cache r a hit, kept)
        ]

    message-Finished :
        (tools : Sources F) (at : Moments) (session message : Text) (g : Guard)
        → KeepsFinished st g.cache
        → EndsFinished st (answer_message st exn_text tools at session message g)
    unfolding answer_message
    message-Finished tools at session [] g a =
        (ensure_safety_footer-IsFinished st blank Intent.general_chat, a)
    message-Finished tools at session (c ∷ message) g a =
        elim (Bool-cases (is_input_too_long st (c ∷ message))) [
          | inl long ↦
              rw (answer_message, long)
                (ensure_safety_footer-IsFinished st (too_long st) Intent.general_chat, a)
          | inr fits ↦
              rw (answer_message, fits) (looked-Finished tools at session (c ∷ message) g a)
        ]

    -- Whatever is asked, at whatever times, and whatever the tools and models answer, raise or fail
    -- to answer: from a cache of finished answers, the answer ends with the safety disclaimer and
    -- keeps to the budget of characters, and so does every answer in the cache that is left.
    pub process_chat-Finished :
        (tools : Sources F) (at : Moments) (message : Text) (session_id : Option Text) (g : Guard)
        → KeepsFinished st g.cache
        → EndsFinished st (process_chat st exn_text tools at message session_id g)
    unfolding process_chat
    process_chat-Finished tools at message session_id g a =
        message-Finished tools at (normalize_session_id session_id) (strip message) g a
