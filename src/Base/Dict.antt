-- ===== src/Base/Dict.antt =====
-- Tables and dicts by a key that is only compared: a number stands for a symbol, or for a date.
use Prim.Native.Nat.{ℕ}
use mathlib.Core.Path.{◌≡◌}
use mathlib.Core.Bool.{false}
use mathlib.Core.Option.{Option, none, some}
use mathlib.Core.List.{List, [], ◌∷◌}
use native.Mathlib.Omega.{arith}
use coin_pilot.Base.Tests.{◌==◌, if◌then◌else◌}

abbrev pub Dict {ℓ} : Type ℓ → Type ℓ
Dict V = List (ℕ × V)

module _ {ℓ} {V : Type ℓ} where
  -- `d.get(key)`
  unfoldable pub lookup : ℕ → Dict V → Option V
  lookup key [] = none
  lookup key ((k, value) ∷ rest) = if key == k then some value else lookup key rest

  -- Every entry of the key goes.
  unfoldable pub erase : ℕ → Dict V → Dict V
  erase key [] = []
  erase key ((k, value) ∷ rest) =
      let others = erase key rest in if key == k then others else (k, value) ∷ others

  -- `d[key] = value`: in place, or as a new last entry.
  unfoldable pub insert : ℕ → V → Dict V → Dict V
  insert key value [] = (key, value) ∷ []
  insert key value ((k, old) ∷ rest) =
      if key == k then (key, value) ∷ rest else (k, old) ∷ insert key value rest

  pub lookup-erase :
      (key k : ℕ) (d : Dict V) → lookup k (erase key d) ≡ (if key == k then none else lookup k d)
  unfolding lookup erase
  lookup-erase key k [] = ground arith
  lookup-erase key k ((_, _) ∷ rest) = ground (arith, lookup-erase key k rest)

  pub lookup-insert :
      (key k : ℕ) (value : V) (d : Dict V)
      → lookup k (insert key value d) ≡ (if key == k then some value else lookup k d)
  unfolding lookup insert
  lookup-insert key k value [] = ground arith
  lookup-insert key k value ((_, _) ∷ rest) = ground (arith, lookup-insert key k value rest)

  pub lookup-insert_self : (k : ℕ) (v : V) (m : Dict V) → lookup k (insert k v m) ≡ some v
  lookup-insert_self k v m = ground (arith, lookup-insert k k v m)

  pub lookup-erase_self : (k : ℕ) (m : Dict V) → lookup k (erase k m) ≡ none
  lookup-erase_self k m = ground (arith, lookup-erase k k m)

  pub lookup-insert_ne :
      (k j : ℕ) (v : V) (m : Dict V) → (k == j) ≡ false → lookup j (insert k v m) ≡ lookup j m
  lookup-insert_ne k j v m h = ground (arith, lookup-insert k j v m)

  pub lookup-erase_ne :
      (k j : ℕ) (m : Dict V) → (k == j) ≡ false → lookup j (erase k m) ≡ lookup j m
  lookup-erase_ne k j m h = ground (arith, lookup-erase k j m)
