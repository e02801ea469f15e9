-- ===== src/Chat/History.antt =====
-- The cache of answers against an ideal one that keeps every answer.
use coin_pilot.Base.{
  ℕ, suc, ◌+◌, ◌≤◌, ◌≡◌, refl, false, Bool-cases, some, Option-cases, inl, inr, List, [], ◌∷◌, ◌++◌,
  length, leb, ltb, arith,
}
use coin_pilot.Base.Text.{Text}
use coin_pilot.Base.Ordered.{
  All, find, pop_key, assign, move_to_end, move_to_end-assign, find-assign, All-find, All-pop_key,
  All-last, All-map,
}
use coin_pilot.Chat.Settings.{Settings}
use coin_pilot.Chat.Guard.{
  Question, Cache, same_question, Guard, ttl, max_entries, drop_expired, drop_excess, cleanup_cache,
  get_cached_response, set_cached_response,
}
use coin_pilot.Chat.Steps.{Step, look, ask, keep, no_requests, run_step, run, noted, history}
use coin_pilot.Chat.Recall.{same_question-IsSame}

-- Every entry is the latest answer of its key.
abbrev pub Current : Cache → Cache → Type 0
Current h = All (λ e. find same_question e.0 h ≡ some e.1)

-- The cache holds no more than it may, and nothing but latest answers.
pub record Reflects (st : Settings) (h cache : Cache) : Type 0 where
  pub current : Current h cache
  pub bounded : length cache ≤ max_entries st

module _ (P : Question × (ℕ × Text) → Type 0) where
  All-drop_expired :
      (limit now : ℕ) (cache : Cache) → All P cache → All P (drop_expired limit now cache)
  unfolding drop_expired
  All-drop_expired limit now [] a = tt
  All-drop_expired limit now ((k, v) ∷ cache) (p, a) = elim (Bool-cases (leb now (v.0 + limit))) [
    | inl fresh ↦ rw fresh (p, a)
    | inr old ↦ rw old (All-drop_expired limit now cache a)
  ]

  All-drop_excess : (limit : ℕ) (cache : Cache) → All P cache → All P (drop_excess limit cache)
  unfolding drop_excess
  All-drop_excess limit [] a = tt
  All-drop_excess limit (e ∷ cache) (p, a) = elim (Bool-cases (ltb limit (length (e ∷ cache)))) [
    | inl over ↦ rw over (All-drop_excess limit cache a)
    | inr fits ↦ rw fits (p, a)
  ]

  pub All-cleanup :
      (st : Settings) (now : ℕ) (cache : Cache) → All P cache → All P (cleanup_cache st now cache)
  unfolding cleanup_cache
  All-cleanup st now cache a =
      All-drop_excess (max_entries st) _ (All-drop_expired (ttl st) now cache a)

drop_excess-length : (limit : ℕ) (cache : Cache) → length (drop_excess limit cache) ≤ limit
unfolding drop_excess
drop_excess-length limit [] = omega arith
drop_excess-length limit (e ∷ cache) = ground (arith, drop_excess-length limit cache)

cleanup-length :
    (st : Settings) (now : ℕ) (cache : Cache) → length (cleanup_cache st now cache) ≤ max_entries st
unfolding cleanup_cache
cleanup-length st now cache = drop_excess-length (max_entries st) _

length-last :
    (cache : Cache) (e : Question × (ℕ × Text)) → length (cache ++ e ∷ []) ≡ suc (length cache)
length-last [] e = refl
length-last (x ∷ cache) e = ground (arith, length-last cache e)

length-pop_key :
    (k : Question) (cache : Cache) → length (pop_key same_question k cache) ≤ length cache
unfolding pop_key
length-pop_key k [] = omega arith
length-pop_key k ((i, w) ∷ cache) = ground (arith, length-pop_key k cache)

length-pop_found :
    (k : Question) (v : ℕ × Text) (cache : Cache)
    → find same_question k cache ≡ some v
    → suc (length (pop_key same_question k cache)) ≤ length cache
unfolding find pop_key
length-pop_found k v [] h = absurd (ground arith)
length-pop_found k v ((i, w) ∷ cache) h =
    ground (arith, length-pop_key k cache, length-pop_found k v cache)

Current-pop_key :
    (h : Cache) (k : Question) (cache : Cache)
    → Current h cache
    → Current h (pop_key same_question k cache)
Current-pop_key h k cache a =
    All-pop_key same_question same_question-IsSame (λ e. find same_question e.0 h ≡ some e.1) k
      cache
      (All-map _ (λ e. same_question k e.0 ≡ false → find same_question e.0 h ≡ some e.1) cache
        (λ e p _. p) a)

move_to_end-Reflects :
    (st : Settings) (h : Cache) (k : Question) (v : ℕ × Text) (cache : Cache)
    → find same_question k cache ≡ some v
    → Reflects st h cache
    → Reflects st h (move_to_end same_question k cache)
unfolding move_to_end
move_to_end-Reflects st h k v cache found r =
    rw (move_to_end, found)
      (record {
        current =
            All-last _ (pop_key same_question k cache) (k, v) (Current-pop_key h k cache r.current)
              (All-find same_question same_question-IsSame
                (λ e. find same_question e.0 h ≡ some e.1) k v cache r.current found);
        bounded = omega (
          arith,
          length-last (pop_key same_question k cache) (k, v),
          length-pop_found k v cache found,
          r.bounded,
        );
      })

cleanup-Reflects :
    (st : Settings) (now : ℕ) (h cache : Cache)
    → Current h cache
    → Reflects st h (cleanup_cache st now cache)
cleanup-Reflects st now h cache a = record {
  current = All-cleanup _ st now cache a;
  bounded = cleanup-length st now cache;
}

get-Reflects :
    (st : Settings) (now : ℕ) (k : Question) (h cache : Cache)
    → Reflects st h cache
    → Reflects st h (get_cached_response st now k cache).1
unfolding get_cached_response
get-Reflects st now k h cache₀ r =
    let cache = cleanup_cache st now cache₀ in
    let r' = cleanup-Reflects st now h cache₀ r.current in
    elim (Option-cases (find same_question k cache)) [
      | inl none_ ↦ rw (get_cached_response, none_) r'
      | inr (v, found) ↦
          rw (get_cached_response, found)
            (elim (Bool-cases (ltb (v.0 + ttl st) now)) [
              | inl old ↦ rw old (record {
                current = Current-pop_key h k cache r'.current;
                bounded = omega (arith, length-pop_key k cache, r'.bounded);
              })
              | inr fresh ↦ rw fresh (move_to_end-Reflects st h k v cache found r')
            ])
    ]

-- What is known of the other keys stays known.
other-Current :
    (h : Cache) (k : Question) (v : ℕ × Text) (e : Question × (ℕ × Text))
    → find same_question e.0 h ≡ some e.1
    → same_question k e.0 ≡ false
    → find same_question e.0 (assign same_question k v h) ≡ some e.1
other-Current h k v e p ne = ground (
  arith,
  find-assign same_question same_question-IsSame k e.0 v h,
  same_question-IsSame.sound e.0 k,
  same_question-IsSame.reflexive k,
  p,
)

set-Reflects :
    (st : Settings) (now : ℕ) (k : Question) (response : Text) (h cache : Cache)
    → Current h cache
    → Reflects st
        (assign same_question k (now, response) h)
        (set_cached_response st now k response cache)
unfolding set_cached_response
set-Reflects st now k response h cache₀ a =
    let cache = cleanup_cache st now cache₀ in
    let v : ℕ × Text = (now, response) in
    let Q : Question × (ℕ × Text) → Type 0 =
      λ e. find same_question e.0 (assign same_question k v h) ≡ some e.1 in
    let others = All-pop_key same_question same_question-IsSame Q k cache (
      All-map _ (λ e. same_question k e.0 ≡ false → Q e) cache (other-Current h k v)
        (All-cleanup _ st now cache₀ a)) in
    cleanup-Reflects st now (assign same_question k v h) _ (
      rw (move_to_end-assign same_question same_question-IsSame k v cache) (
        All-last Q (pop_key same_question k cache) (k, v) others
          (ground (
            arith,
            find-assign same_question same_question-IsSame k k v h,
            same_question-IsSame.reflexive k,
          ))))

run_step-Reflects :
    (st : Settings) (s : Step) (g : Guard) (h : Cache)
    → Reflects st h g.cache
    → Reflects st (noted s h) (run_step st s g).cache
unfolding run_step
run_step-Reflects st (look t key) g h r = get-Reflects st t key h g.cache r
run_step-Reflects st (ask t session) g h r = r
run_step-Reflects st (keep t key response) g h r =
    set-Reflects st t key response h g.cache r.current

run-Reflects :
    (st : Settings) (steps : List Step) (g : Guard) (h : Cache)
    → Reflects st h g.cache
    → Reflects st (history steps h) (run st steps g).cache
unfolding run history
run-Reflects st [] g h r = r
run-Reflects st (s ∷ steps) g h r =
    run-Reflects st steps (run_step st s g) (noted s h) (run_step-Reflects st s g h r)

get-found :
    (st : Settings) (now : ℕ) (key : Question) (response : Text) (cache : Cache)
    → (get_cached_response st now key cache).0 ≡ some response
    → (t : ℕ) × (find same_question key (cleanup_cache st now cache) ≡ some (t, response))
      × (now ≤ t + ttl st)
unfolding get_cached_response
get-found st now key response cache e =
    elim (Option-cases (find same_question key (cleanup_cache st now cache))) [
      | inl none_ ↦ absurd (ground (arith, none_))
      | inr (v, found) ↦ (v.0, ground (arith, found), ground (arith, found))
    ]

-- Through any steps of requests side by side, from the empty cache, the cache refines an ideal one
-- that keeps every answer: a question that is answered from it gets the latest answer that was
-- kept for the same session and question, and that answer is not older than the time to live. The
-- cache never holds more entries than the setting allows.
pub run-Recalls :
    (st : Settings) (steps : List Step) (now : ℕ) (key : Question) (response : Text)
    → (get_cached_response st now key (run st steps no_requests).cache).0 ≡ some response
    → (t : ℕ) × (find same_question key (history steps []) ≡ some (t, response))
      × (now ≤ t + ttl st)
      × (length (run st steps no_requests).cache ≤ max_entries st)
run-Recalls st steps now key response e =
    let cache = (run st steps no_requests).cache in
    let r = run-Reflects st steps no_requests [] (record { current = tt; bounded = omega arith }) in
    let (t, found, fresh) = get-found st now key response cache e in
    let kept = cleanup-Reflects st now (history steps []) cache r.current in
    (
      t,
      All-find same_question same_question-IsSame
          (λ x. find same_question x.0 (history steps []) ≡ some x.1) key (t, response)
          (cleanup_cache st now cache) kept.current found,
      fresh,
      r.bounded,
    )
