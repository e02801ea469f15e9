-- ===== src/Redis.antt =====
-- What the code uses of Redis, which is a service outside: its operations are a parameter. A time
-- is a number of seconds, and each operation is told the time it runs at.
pub mod Table
use coin_pilot.Base.{
  ℕ, ◌+◌, ◌≤◌, ◌<◌, ◌≡◌, Bool, true, false, Option, none, some, get_or, ◌==◌, suc,
}

-- The keys of src/agents/guardrails.py. An hour and a day are numbered from the epoch.
pub data Key : Type 0 where
  global_block error_streak : Key
  symbol_cooldown reject_count usage_hour usage_day : ℕ → Key

abbrev pub same_key : Key → Key → Bool
same_key global_block global_block = true
same_key error_streak error_streak = true
same_key (symbol_cooldown a) (symbol_cooldown b) = a == b
same_key (reject_count a) (reject_count b) = a == b
same_key (usage_hour a) (usage_hour b) = a == b
same_key (usage_day a) (usage_day b) = a == b
same_key _ _ = false

pub data Value : Type 0 where
  number : ℕ → Value
  low_credit error_streak_reached : Value

-- `ttl` answers the seconds that are left, 0 for a key that is missing or never expires; `get` the
-- value, if it is a number. (Redis has -2 and -1 there, which the code does not tell from 0.)
pub record Redis (S : Type 0) : Type 0 where
  pub ttl : ℕ → Key → S → ℕ
  pub get : ℕ → Key → S → Option ℕ
  pub incr : ℕ → Key → S → ℕ × S
  pub expire : ℕ → Key → ℕ → S → S
  pub set : ℕ → Key → Value → ℕ → S → S
  pub delete : ℕ → Key → S → S

-- What the documentation of Redis says of them.
pub record IsRedis {S : Type 0} (r : Redis S) : Type 0 where
  pub ttl-set :
      (t u e : ℕ) (k : Key) (v : Value) (s : S)
      → t ≤ u
      → u < t + e
      → 0 < r.ttl u k (r.set t k v e s)
  pub ttl-set_ne :
      (t u e : ℕ) (k j : Key) (v : Value) (s : S)
      → same_key k j ≡ false
      → r.ttl u j (r.set t k v e s) ≡ r.ttl u j s
  pub ttl-incr_ne :
      (t u : ℕ) (k j : Key) (s : S)
      → same_key k j ≡ false
      → r.ttl u j (r.incr t k s).1 ≡ r.ttl u j s
  pub ttl-expire_ne :
      (t u e : ℕ) (k j : Key) (s : S)
      → same_key k j ≡ false
      → r.ttl u j (r.expire t k e s) ≡ r.ttl u j s
  pub ttl-delete_ne :
      (t u : ℕ) (k j : Key) (s : S)
      → same_key k j ≡ false
      → r.ttl u j (r.delete t k s) ≡ r.ttl u j s
  pub incr-count : (t : ℕ) (k : Key) (s : S) → (r.incr t k s).0 ≡ suc (get_or (r.get t k s) 0)
  pub get-incr : (t : ℕ) (k : Key) (s : S) → r.get t k (r.incr t k s).1 ≡ some (r.incr t k s).0
  pub get-incr_ne :
      (t u : ℕ) (k j : Key) (s : S)
      → same_key k j ≡ false
      → r.get u j (r.incr t k s).1 ≡ r.get u j s
  pub get-expire :
      (t u e : ℕ) (k : Key) (s : S) → t ≤ u → u < t + e → r.get u k (r.expire t k e s) ≡ r.get t k s
  pub get-expire_ne :
      (t u e : ℕ) (k j : Key) (s : S)
      → same_key k j ≡ false
      → r.get u j (r.expire t k e s) ≡ r.get u j s
  pub get-set_ne :
      (t u e : ℕ) (k j : Key) (v : Value) (s : S)
      → same_key k j ≡ false
      → r.get u j (r.set t k v e s) ≡ r.get u j s
  pub get-delete : (t u : ℕ) (k : Key) (s : S) → r.get u k (r.delete t k s) ≡ none
  pub get-delete_ne :
      (t u : ℕ) (k j : Key) (s : S)
      → same_key k j ≡ false
      → r.get u j (r.delete t k s) ≡ r.get u j s
