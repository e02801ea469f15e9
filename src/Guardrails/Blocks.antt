-- ===== src/Guardrails/Blocks.antt =====
-- A rejection blocks, and an approval forgets.
use coin_pilot.Base.{
  ℕ, suc, ◌+◌, ◌≤◌, ◌<◌, ◌≡◌, ◌≢◌, refl, ◌∙◌, String, true, false, none, some, get_or, arith,
}
use coin_pilot.Redis.{Key, Value, same_key, Redis, IsRedis}
use coin_pilot.Guardrails.{
  GuardConfig, seconds, window, credit_seconds, error_seconds, is_low_credit_error,
  is_ai_error_reason, get_reject_cooldown_minutes, should_block_ai_call, bump, cool_down,
  count_error, after_rejection, update_ai_guardrails_after_decision,
}

module _ {S : Type 0} (r : Redis S) where
  -- The cooldown of the next rejection.
  abbrev pub next_cooldown : ℕ → ℕ → GuardConfig → S → ℕ
  next_cooldown t symbol cfg s =
      seconds
        (get_reject_cooldown_minutes (suc (get_or (r.get t (Key.reject_count symbol) s) 0)) cfg)

  -- What an approval leaves.
  pub record Forgiven (u symbol : ℕ) (s s' : S) : Type 0 where
    pub rejections : r.get u (Key.reject_count symbol) s' ≡ none
    pub errors : r.get u Key.error_streak s' ≡ none
    pub global : r.ttl u Key.global_block s' ≡ r.ttl u Key.global_block s
    pub cooldown : (k : ℕ) → r.ttl u (Key.symbol_cooldown k) s' ≡ r.ttl u (Key.symbol_cooldown k) s

module _ {S : Type 0} (r : Redis S) (laws : IsRedis r) where
  -- A running block, of every symbol or of this one, is enough.
  global-blocked :
      (u symbol : ℕ) (cfg : GuardConfig) (s : S)
      → 0 < r.ttl u Key.global_block s
      → should_block_ai_call r u (some s) symbol cfg ≢ none
  unfolding should_block_ai_call
  global-blocked u symbol cfg s h = ground arith

  cooldown-blocked :
      (u symbol : ℕ) (cfg : GuardConfig) (s : S)
      → 0 < r.ttl u (Key.symbol_cooldown symbol) s
      → should_block_ai_call r u (some s) symbol cfg ≢ none
  unfolding should_block_ai_call
  cooldown-blocked u symbol cfg s h = ground arith

  abbrev count_at : ℕ → Key → S → ℕ
  count_at t k s = get_or (r.get t k s) 0

  ttl-bump :
      (t u e : ℕ) (k j : Key) (s : S)
      → same_key k j ≡ false
      → r.ttl u j (bump r t k e s).1 ≡ r.ttl u j s
  unfolding bump
  ttl-bump t u e k j s h =
      ground (arith, laws.ttl-incr_ne t u k j s, laws.ttl-expire_ne t u e k j (r.incr t k s).1)

  get-bump :
      (t u e : ℕ) (k j : Key) (s : S)
      → same_key k j ≡ false
      → r.get u j (bump r t k e s).1 ≡ r.get u j s
  unfolding bump
  get-bump t u e k j s h =
      ground (arith, laws.get-incr_ne t u k j s, laws.get-expire_ne t u e k j (r.incr t k s).1)

  bump-count : (t e : ℕ) (k : Key) (s : S) → (bump r t k e s).0 ≡ suc (count_at t k s)
  unfolding bump
  bump-count t e k s = laws.incr-count t k s

  cool_down-ttl :
      (t u symbol : ℕ) (cfg : GuardConfig) (s : S)
      → t ≤ u
      → u < t + next_cooldown r t symbol cfg s
      → 0 < r.ttl u (Key.symbol_cooldown symbol) (cool_down r t symbol cfg s)
  unfolding cool_down
  cool_down-ttl t u symbol cfg s h i =
      let k = Key.reject_count symbol in
      let b = bump r t k (window r cfg) s in
      let minutes = get_reject_cooldown_minutes b.0 cfg in
      ground (
        arith,
        bump-count t (window r cfg) k s,
        laws.ttl-set t u (seconds minutes) (Key.symbol_cooldown symbol) (Value.number minutes) b.1,
      )

  count_error-ttl :
      (t u symbol : ℕ) (cfg : GuardConfig) (s : S)
      → r.ttl u (Key.symbol_cooldown symbol) (count_error r t cfg s)
        ≡ r.ttl u (Key.symbol_cooldown symbol) s
  unfolding count_error
  count_error-ttl t u symbol cfg s =
      let b = bump r t Key.error_streak 3600 s in
      ground (
        arith,
        ttl-bump t u 3600 Key.error_streak (Key.symbol_cooldown symbol) s,
        laws.ttl-set_ne t u (error_seconds r cfg) Key.global_block (Key.symbol_cooldown symbol)
            Value.error_streak_reached b.1,
      )

  after_rejection-ttl :
      (t u symbol : ℕ) (reasoning : String) (cfg : GuardConfig) (s : S)
      → r.ttl u (Key.symbol_cooldown symbol) (after_rejection r t symbol reasoning cfg s)
        ≡ r.ttl u (Key.symbol_cooldown symbol) (cool_down r t symbol cfg s)
  unfolding after_rejection
  after_rejection-ttl t u symbol reasoning cfg s =
      let c = cool_down r t symbol cfg s in
      ground (
        arith,
        count_error-ttl t u symbol cfg c,
        laws.ttl-set_ne t u (credit_seconds r cfg) Key.global_block (Key.symbol_cooldown symbol)
            Value.low_credit c,
        laws.ttl-delete_ne t u Key.error_streak (Key.symbol_cooldown symbol) c,
      )

  -- After any rejection, no call for the symbol is let through until its cooldown is over: the
  -- minutes of the first, the second or a later rejection by the count so far, and one minute at least.
  pub rejection_blocks :
      (t u symbol : ℕ) (reasoning : String) (cfg cfg' : GuardConfig) (s : S)
      → t ≤ u
      → u < t + next_cooldown r t symbol cfg s
      → should_block_ai_call r u
          (update_ai_guardrails_after_decision r t (some s) symbol false reasoning cfg)
          symbol
          cfg'
        ≢ none
  unfolding update_ai_guardrails_after_decision
  rejection_blocks t u symbol reasoning cfg cfg' s h i =
      let a = after_rejection r t symbol reasoning cfg s in
      cooldown-blocked u symbol cfg' a (
        ground
          (arith, after_rejection-ttl t u symbol reasoning cfg s, cool_down-ttl t u symbol cfg s))

  cool_down-errors :
      (t u symbol : ℕ) (cfg : GuardConfig) (s : S)
      → r.get u Key.error_streak (cool_down r t symbol cfg s) ≡ r.get u Key.error_streak s
  unfolding cool_down
  cool_down-errors t u symbol cfg s =
      let k = Key.reject_count symbol in
      let b = bump r t k (window r cfg) s in
      let minutes = get_reject_cooldown_minutes b.0 cfg in
      ground (
        arith,
        get-bump t u (window r cfg) k Key.error_streak s,
        laws.get-set_ne t u (seconds minutes) (Key.symbol_cooldown symbol) Key.error_streak
            (Value.number minutes) b.1,
      )

  -- After a rejection for want of credit, no call for any symbol is let through for the minutes of
  -- the setting, and one minute at least.
  pub credit_blocks :
      (t u symbol other : ℕ) (reasoning : String) (cfg cfg' : GuardConfig) (s : S)
      → is_low_credit_error reasoning ≡ true
      → t ≤ u
      → u < t + credit_seconds r cfg
      → should_block_ai_call r u
          (update_ai_guardrails_after_decision r t (some s) symbol false reasoning cfg)
          other
          cfg'
        ≢ none
  unfolding update_ai_guardrails_after_decision after_rejection
  credit_blocks t u symbol other reasoning cfg cfg' s low h i =
      let c = cool_down r t symbol cfg s in
      let after = r.set t Key.global_block Value.low_credit (credit_seconds r cfg) c in
      rw low (
        global-blocked u other cfg' after
          (laws.ttl-set t u (credit_seconds r cfg) Key.global_block Value.low_credit c h i))

  -- A rejection by an error of the agents that makes the threshold of such errors in a row, and is
  -- not for want of credit: no call for any symbol is let through for the minutes of the setting,
  -- and one minute at least.
  pub error_streak_blocks :
      (t u symbol other : ℕ) (reasoning : String) (cfg cfg' : GuardConfig) (s : S)
      → is_low_credit_error reasoning ≡ false
      → is_ai_error_reason reasoning ≡ true
      → get_or cfg.error_streak_threshold 5 ≤ suc (get_or (r.get t Key.error_streak s) 0)
      → t ≤ u
      → u < t + error_seconds r cfg
      → should_block_ai_call r u
          (update_ai_guardrails_after_decision r t (some s) symbol false reasoning cfg)
          other
          cfg'
        ≢ none
  unfolding update_ai_guardrails_after_decision after_rejection count_error
  error_streak_blocks t u symbol other reasoning cfg cfg' s low err reached h i =
      let c = cool_down r t symbol cfg s in
      let b = bump r t Key.error_streak 3600 c in
      let after = r.set t Key.global_block Value.error_streak_reached (error_seconds r cfg) b.1 in
      ground (
        arith,
        bump-count t 3600 Key.error_streak c,
        cool_down-errors t t symbol cfg s,
        global-blocked u other cfg' after,
        laws.ttl-set t u (error_seconds r cfg) Key.global_block Value.error_streak_reached b.1,
      )

  -- An approval sets the count of the symbol's rejections and the count of errors in a row back to
  -- nothing, so the next rejection starts the shortest cooldown, and leaves every running block.
  pub approval-Forgiven :
      (t u symbol : ℕ) (reasoning : String) (cfg : GuardConfig) (s : S)
      → (s' : S) × (update_ai_guardrails_after_decision r t (some s) symbol true reasoning cfg
          ≡ some s')
        × Forgiven r u symbol s s'
        × (next_cooldown r u symbol cfg s' ≡ seconds (get_or cfg.reject_cooldown_min_1 5))
  unfolding update_ai_guardrails_after_decision get_reject_cooldown_minutes
  approval-Forgiven t u symbol reasoning cfg s =
      let s₁ = r.delete t (Key.reject_count symbol) s in
      let none_ =
        laws.get-delete_ne t u Key.error_streak (Key.reject_count symbol) s₁ refl
        ∙ laws.get-delete t u (Key.reject_count symbol) s in
      (
        r.delete t Key.error_streak s₁,
        refl,
        record {
          rejections = none_;
          errors = laws.get-delete t u Key.error_streak s₁;
          global =
              laws.ttl-delete_ne t u Key.error_streak Key.global_block s₁ refl
              ∙ laws.ttl-delete_ne t u (Key.reject_count symbol) Key.global_block s refl;
          cooldown = λ k.
              laws.ttl-delete_ne t u Key.error_streak (Key.symbol_cooldown k) s₁ refl
              ∙ laws.ttl-delete_ne t u (Key.reject_count symbol) (Key.symbol_cooldown k) s refl;
        },
        ground (arith, none_),
      )
