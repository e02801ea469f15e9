-- ===== src/Guardrails/Budget.antt =====
-- The calls of an hour, and of a day, are counted and limited.
use coin_pilot.Base.{
  ℕ, suc, refl, sym, ap, ◌∙◌, ◌⊎◌, inl, inr, ◌+◌, ◌/◌, ◌≤◌, ◌≡◌, ◌≢◌, Option, none, some, List, [],
  ◌∷◌, length, get_or, arith,
}
use coin_pilot.Redis.{Key, Redis, IsRedis}
use coin_pilot.Guardrails.{
  GuardConfig, hour_key, day_key, hour_limit, day_limit, should_block_ai_call, mark_ai_call_started,
}

-- Times in order, all in one period of so many seconds.
abbrev pub Within : ℕ → ℕ → List ℕ → ℕ → Type 0
Within period t [] u = (t ≤ u) × (u / period ≡ t / period)
Within period t (t' ∷ ts) u = (t ≤ t') × (t' / period ≡ t / period) × Within period t' ts u

module _ {S : Type 0} (r : Redis S) where
  -- A call at each of the times.
  pub calls : ℕ → List ℕ → Option S → Option S
  calls t [] s = mark_ai_call_started r t s
  calls t (t' ∷ ts) s = calls t' ts (mark_ai_call_started r t s)

  abbrev pub used : ℕ → Key → Option S → ℕ
  used u k none = 0
  used u k (some s) = get_or (r.get u k s) 0

module _ {S : Type 0} (r : Redis S) (laws : IsRedis r) where
  mark-hour :
      (t u : ℕ) (s : S)
      → t ≤ u
      → u / 3600 ≡ t / 3600
      → used r u (hour_key u) (mark_ai_call_started r t (some s))
        ≡ suc (used r t (hour_key t) (some s))
  unfolding mark_ai_call_started
  mark-hour t u s h e =
      let (n, s₁) = r.incr t (hour_key t) s in
      let s₂ = r.expire t (hour_key t) 7200 s₁ in
      let (m, s₃) = r.incr t (day_key t) s₂ in
      ground (
        arith,
        laws.get-expire_ne t u 172_800 (day_key t) (hour_key u) s₃,
        laws.get-incr_ne t u (day_key t) (hour_key u) s₂,
        laws.get-expire t u 7200 (hour_key t) s₁,
        laws.get-incr t (hour_key t) s,
        laws.incr-count t (hour_key t) s,
      )

  mark-day :
      (t u : ℕ) (s : S)
      → t ≤ u
      → u / 86_400 ≡ t / 86_400
      → used r u (day_key u) (mark_ai_call_started r t (some s))
        ≡ suc (used r t (day_key t) (some s))
  unfolding mark_ai_call_started
  mark-day t u s h e =
      let (n, s₁) = r.incr t (hour_key t) s in
      let s₂ = r.expire t (hour_key t) 7200 s₁ in
      let (m, s₃) = r.incr t (day_key t) s₂ in
      ground (
        arith,
        laws.get-expire t u 172_800 (day_key t) s₃,
        laws.get-incr t (day_key t) s₂,
        laws.incr-count t (day_key t) s₂,
        laws.get-expire_ne t t 7200 (hour_key t) (day_key t) s₁,
        laws.get-incr_ne t t (hour_key t) (day_key t) s,
      )

  marked : (t : ℕ) (s : S) → (s' : S) × (mark_ai_call_started r t (some s) ≡ some s')
  unfolding mark_ai_call_started
  marked t s = (_, refl)

  calls-hour :
      (t u : ℕ) (ts : List ℕ) (s : S)
      → Within 3600 t ts u
      → used r u (hour_key u) (calls r t ts (some s))
        ≡ suc (length ts) + used r t (hour_key t) (some s)
  unfolding calls
  calls-hour t u [] s (h, e) = omega (arith, mark-hour t u s h e)
  calls-hour t u (t' ∷ ts) s (h, e, w) =
      let (s', m) = marked t s in ground (arith, m, mark-hour t t' s h e, calls-hour t' u ts s' w)

  calls-day :
      (t u : ℕ) (ts : List ℕ) (s : S)
      → Within 86_400 t ts u
      → used r u (day_key u) (calls r t ts (some s))
        ≡ suc (length ts) + used r t (day_key t) (some s)
  unfolding calls
  calls-day t u [] s (h, e) = omega (arith, mark-day t u s h e)
  calls-day t u (t' ∷ ts) s (h, e, w) =
      let (s', m) = marked t s in ground (arith, m, mark-day t t' s h e, calls-day t' u ts s' w)

  exhausted :
      (u symbol : ℕ) (cfg : GuardConfig) (s : Option S)
      → s ≢ none
      → (hour_limit cfg ≤ used r u (hour_key u) s) ⊎ (day_limit cfg ≤ used r u (day_key u) s)
      → should_block_ai_call r u s symbol cfg ≢ none
  unfolding should_block_ai_call
  exhausted u symbol cfg none there h = absurd (there refl)
  exhausted u symbol cfg (some s) there h = ground arith

  calls_there : (t : ℕ) (ts : List ℕ) (s : S) → calls r t ts (some s) ≢ none
  unfolding calls
  calls_there t [] s e = let (s', m) = marked t s in cc (e, m)
  calls_there t (t' ∷ ts) s e =
      let (s', m) = marked t s in calls_there t' ts s' (ap (calls r t' ts) (sym m) ∙ e)

  -- After as many calls within one hour as an hour may have, no call for any symbol is let through
  -- in the rest of that hour.
  pub hour_budget :
      (t u symbol : ℕ) (ts : List ℕ) (cfg : GuardConfig) (s : S)
      → Within 3600 t ts u
      → hour_limit cfg ≤ suc (length ts)
      → should_block_ai_call r u (calls r t ts (some s)) symbol cfg ≢ none
  hour_budget t u symbol ts cfg s w h =
      exhausted u symbol cfg (calls r t ts (some s)) (calls_there t ts s)
        (inl (omega (arith, calls-hour t u ts s w)))

  -- After as many calls within one day as a day may have, no call for any symbol is let through in
  -- the rest of that day.
  day_budget :
      (t u symbol : ℕ) (ts : List ℕ) (cfg : GuardConfig) (s : S)
      → Within 86_400 t ts u
      → day_limit cfg ≤ suc (length ts)
      → should_block_ai_call r u (calls r t ts (some s)) symbol cfg ≢ none
  day_budget t u symbol ts cfg s w h =
      exhausted u symbol cfg (calls r t ts (some s)) (calls_there t ts s)
        (inr (omega (arith, calls-day t u ts s w)))
