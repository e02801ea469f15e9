-- ===== src/Base/Result.antt =====
-- Python's exceptions as values: a call returns a value or raises.
use mathlib.Core.Path.{◌≡◌, refl}
use mathlib.Core.Logic.{◌⊎◌, inl, inr}
use mathlib.Core.Option.{Option, none, some}

pub data Exn : Type 0 where
  zero_division invalid_operation type_error value_error : Exn

pub data Result {ℓ} (A : Type ℓ) : Type ℓ where
  ok : A → Result A
  raise : Exn → Result A

module _ {ℓ κ} {A : Type ℓ} {B : Type κ} where
  -- An exception ends the block.
  infixl 5 ◌>>=◌
  abbrev pub ◌>>=◌ : Result A → (A → Result B) → Result B
  raise x >>= next = raise x
  ok a >>= next = next a

abbrev pub or_raise {ℓ} : {A : Type ℓ} → Option A → Exn → Result A
or_raise none e = raise e
or_raise (some a) _ = ok a

pub Result-cases {ℓ} :
    {A : Type ℓ} (r : Result A) → ((e : Exn) × (r ≡ raise e)) ⊎ ((a : A) × (r ≡ ok a))
Result-cases (ok a) = inr (a, refl)
Result-cases (raise e) = inl (e, refl)
