-- ===== src/Number.antt =====
-- The arithmetic of `Decimal` and of `float`, which the program calls and does not implement.
-- Each is a type `W` with the operations below. The constants are the literals of the source.
pub mod Order
pub mod Fixed
pub mod Format
use coin_pilot.Base.{ℕ, Bool, Option}

-- `lit m k` is the literal m / 10 ^ k; `div` is `none` where Python raises ZeroDivisionError.
pub record Number {ℓ} (W : Type ℓ) : Type ℓ where
  pub lit : ℕ → ℕ → W
  pub add : W → W → W
  pub sub : W → W → W
  pub mul : W → W → W
  pub div : W → W → Option W
  pub neg : W → W
  pub lt : W → W → Bool
  pub le : W → W → Bool
  pub eq : W → W → Bool

module _ {ℓ} {W : Type ℓ} ⦃n : Number W⦄ where
  infixl 65 ◌⊕◌ ◌⊖◌
  infixl 70 ◌⊗◌ ◌⊘◌
  infix 50 ◌≺◌ ◌≼◌ ◌≈◌
  abbrev pub ◌⊕◌ : W → W → W
  a ⊕ b = n.add a b

  abbrev pub ◌⊖◌ : W → W → W
  a ⊖ b = n.sub a b

  abbrev pub ◌⊗◌ : W → W → W
  a ⊗ b = n.mul a b

  abbrev pub ◌⊘◌ : W → W → Option W
  a ⊘ b = n.div a b

  -- The tests `a < b`, `a <= b` and `a == b` of Python. `a > b` is `b ≺ a`.
  abbrev pub ◌≺◌ : W → W → Bool
  a ≺ b = n.lt a b

  abbrev pub ◌≼◌ : W → W → Bool
  a ≼ b = n.le a b

  abbrev pub ◌≈◌ : W → W → Bool
  a ≈ b = n.eq a b

  abbrev pub lit : ℕ → ℕ → W
  lit m k = n.lit m k

  -- The whole number m.
  abbrev pub whole : ℕ → W
  whole m = n.lit m 0

-- `float(d)`, and `Decimal(str(x))`.
pub record Convert {ℓ κ} (D : Type ℓ) (F : Type κ) : Type (ℓ ⊔ κ) where
  pub to_float : D → F
  pub to_decimal : F → D
