-- ===== src/Base/Ordered.antt =====
-- `dict` and `OrderedDict`: the entries in their order, by any key with a test for sameness.
use mathlib.Core.Path.{◌≡◌, refl}
use mathlib.Core.Bool.{Bool, true, false}
use mathlib.Core.Option.{Option, none, some}
use mathlib.Core.List.{List, [], ◌∷◌, ◌++◌}
use native.Mathlib.Omega.{arith}
use coin_pilot.Base.Tests.{if◌then◌else◌}

-- The library's keys are compared by a Boolean test.
pub record IsSame {ℓ} {K : Type ℓ} (same : K → K → Bool) : Type ℓ where
  pub reflexive : (k : K) → same k k ≡ true
  pub sound : (k j : K) → same k j ≡ true → k ≡ j

module _ {ℓ κ} {A : Type ℓ} (P : A → Type κ) where
  abbrev pub All : List A → Type κ
  All [] = Unit
  All (x ∷ xs) = P x × All xs

module _ {ℓ κ} {K : Type ℓ} {V : Type κ} (same : K → K → Bool) where
  -- `d.get(key)`
  unfoldable pub find : K → List (K × V) → Option V
  find key [] = none
  find key ((k, v) ∷ rest) = if same key k then some v else find key rest

  -- `d.pop(key, None)`
  unfoldable pub pop_key : K → List (K × V) → List (K × V)
  pop_key key [] = []
  pop_key key ((k, v) ∷ rest) =
      let others = pop_key key rest in if same key k then others else (k, v) ∷ others

  -- `d[key] = value`: in place, or as the last entry.
  unfoldable pub assign : K → V → List (K × V) → List (K × V)
  assign key value [] = (key, value) ∷ []
  assign key value ((k, old) ∷ rest) =
      let later = assign key value rest in
      if same key k then (k, value) ∷ rest else (k, old) ∷ later

  -- `d.move_to_end(key)`, for a key that is there.
  unfoldable pub move_to_end : K → List (K × V) → List (K × V)
  unfolding find pop_key
  move_to_end key d = elim (find key d) [
    | none ↦ d
    | some value ↦ pop_key key d ++ (key, value) ∷ []
  ]

module _ {ℓ κ} {K : Type ℓ} {V : Type κ} (same : K → K → Bool) (laws : IsSame same) where
  pub find-assign :
      (k j : K) (v : V) (d : List (K × V))
      → find same j (assign same k v d) ≡ (if same j k then some v else find same j d)
  unfolding find assign
  find-assign k j v [] = refl
  find-assign k j v ((i, w) ∷ d) =
      ground (
        arith,
        find-assign k j v d,
        laws.sound k i,
        laws.sound j i,
        laws.sound j k,
        laws.reflexive k,
      )

  find-assign_self : (k : K) (v : V) (d : List (K × V)) → find same k (assign same k v d) ≡ some v
  find-assign_self k v d = ground (arith, find-assign k k v d, laws.reflexive k)

  pop_key-assign :
      (k : K) (v : V) (d : List (K × V)) → pop_key same k (assign same k v d) ≡ pop_key same k d
  unfolding pop_key assign
  pop_key-assign k v [] = ground (arith, laws.reflexive k)
  pop_key-assign k v ((i, w) ∷ d) = ground (arith, pop_key-assign k v d)

  -- An assigned key that is moved to the end is the last entry.
  pub move_to_end-assign :
      (k : K) (v : V) (d : List (K × V))
      → move_to_end same k (assign same k v d) ≡ pop_key same k d ++ (k, v) ∷ []
  unfolding move_to_end
  move_to_end-assign k v d = ground (arith, find-assign_self k v d, pop_key-assign k v d)

  pub find-pop_key : (k : K) (d : List (K × V)) → find same k (pop_key same k d) ≡ none
  unfolding find pop_key
  find-pop_key k [] = refl
  find-pop_key k ((i, w) ∷ d) = ground (arith, find-pop_key k d)

  pub find_last :
      (k : K) (v : V) (d : List (K × V))
      → find same k d ≡ none
      → find same k (d ++ (k, v) ∷ []) ≡ some v
  unfolding find
  find_last k v [] h = ground (arith, laws.reflexive k)
  find_last k v ((i, w) ∷ d) h = ground (arith, find_last k v d)

  module _ {μ} (P : K × V → Type μ) where
    pub All-find : (k : K) (v : V) (d : List (K × V)) → All P d → find same k d ≡ some v → P (k, v)
    unfolding find
    All-find k v [] a h = absurd (ground arith)
    All-find k v ((i, w) ∷ d) (p, a) h = ground (arith, p, laws.sound k i, All-find k v d a)

    -- A property of every entry but those of a key.
    pub All-pop_key :
        (k : K) (d : List (K × V))
        → All (λ e. same k e.0 ≡ false → P e) d
        → All P (pop_key same k d)
    unfolding pop_key
    All-pop_key k [] a = tt
    All-pop_key k ((i, w) ∷ d) (p, a) = ground (arith, p, All-pop_key k d a)

module _ {ℓ κ} {A : Type ℓ} (P : A → Type κ) where
  pub All-last : (xs : List A) (x : A) → All P xs → P x → All P (xs ++ x ∷ [])
  All-last [] x a p = (p, tt)
  All-last (y ∷ xs) x (q, a) p = (q, All-last xs x a p)

module _ {ℓ κ μ} {A : Type ℓ} (P : A → Type κ) (Q : A → Type μ) where
  pub All-map : (xs : List A) (f : (x : A) → P x → Q x) → All P xs → All Q xs
  All-map [] f a = tt
  All-map (x ∷ xs) f (p, a) = (f x p, All-map xs f a)
