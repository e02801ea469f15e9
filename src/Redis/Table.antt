-- ===== src/Redis/Table.antt =====
-- A table that behaves like Redis: a value and, for some keys, the time at which it expires.
use coin_pilot.Base.{
  ℕ, suc, ◌+◌, ◌-◌, Bool, true, Option, none, some, ltb, if◌then◌else◌, get_or, arith, ◌≡◌, refl,
}
use coin_pilot.Redis.{Key, same_key, Value, number, Redis, IsRedis}

pub record Entry : Type 0 where
  pub value : Value
  pub expires : Option ℕ

abbrev pub Table : Type 0
Table = Key → Option Entry

abbrev pub empty : Table
empty _ = none

abbrev put : Key → Option Entry → Table → Table
put k e s j = if same_key k j then e else s j

abbrev live_until : ℕ → Option ℕ → Bool
live_until t none = true
live_until t (some e) = ltb t e

-- The entry, unless its time is over.
abbrev live : ℕ → Option Entry → Option Entry
live t none = none
live t (some e) = if live_until t e.expires then some e else none

abbrev as_number : Value → Option ℕ
as_number (number n) = some n
as_number _ = none

abbrev number_of : Option Entry → Option ℕ
number_of none = none
number_of (some e) = as_number e.value

abbrev left : ℕ → Option ℕ → ℕ
left t none = 0
left t (some e) = e - t

abbrev ttl_of : ℕ → Option Entry → ℕ
ttl_of t none = 0
ttl_of t (some e) = left t e.expires

abbrev expires_of : Option Entry → Option ℕ
expires_of none = none
expires_of (some e) = e.expires

abbrev moved : ℕ → Option Entry → Option Entry
moved until none = none
moved until (some e) = some (record e { expires = some until })

abbrev counted : ℕ → Option Entry → ℕ
counted t e = suc (get_or (number_of (live t e)) 0)

abbrev pub table : Redis Table
table = record {
  ttl = λ t k s. ttl_of t (s k);
  get = λ t k s. number_of (live t (s k));
  incr = λ t k s. (
    counted t (s k),
    put k (some (record { value = number (counted t (s k)); expires = expires_of (live t (s k)) }))
        s,
  );
  expire = λ t k e s. put k (moved (t + e) (live t (s k))) s;
  set = λ t k v e s. put k (some (record { value = v; expires = some (t + e) })) s;
  delete = λ t k s. put k none s;
}

same_key_self : (k : Key) → same_key k k ≡ true
same_key_self Key.global_block = refl
same_key_self Key.error_streak = refl
same_key_self (Key.symbol_cooldown a) = ground arith
same_key_self (Key.reject_count a) = ground arith
same_key_self (Key.usage_hour a) = ground arith
same_key_self (Key.usage_day a) = ground arith

pub table-IsRedis : IsRedis table
table-IsRedis = record {
  ttl-set = λ t u e k v s h i. ground (arith, same_key_self k);
  ttl-set_ne = λ t u e k j v s h. ground arith;
  ttl-incr_ne = λ t u k j s h. ground arith;
  ttl-expire_ne = λ t u e k j s h. ground arith;
  ttl-delete_ne = λ t u k j s h. ground arith;
  incr-count = λ t k s. refl;
  get-incr = λ t k s. ground (arith, same_key_self k);
  get-incr_ne = λ t u k j s h. ground arith;
  get-expire = λ t u e k s h i. ground (arith, same_key_self k);
  get-expire_ne = λ t u e k j s h. ground arith;
  get-set_ne = λ t u e k j v s h. ground arith;
  get-delete = λ t u k s. ground (arith, same_key_self k);
  get-delete_ne = λ t u k j s h. ground arith;
}
