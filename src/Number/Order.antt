-- ===== src/Number/Order.antt =====
-- What the proofs use of the order of `Decimal`, or of the `float`s that are no NaN and do not
-- overflow: IEEE 754 and the decimal specification give a total order, and operations that are
-- rounded monotonically.
use coin_pilot.Base.{◌≡◌, ◌⊎◌, inl, inr, true, false, not, ◌&&◌, some, arith}
use coin_pilot.Number.{Number, ◌≺◌, ◌≼◌, ◌≈◌, ◌⊕◌, ◌⊗◌, ◌⊖◌, ◌⊘◌, whole}

pub record IsOrdered {ℓ} (W : Type ℓ) ⦃n : Number W⦄ : Type ℓ where
  pub le_trans : (x y z : W) → (x ≼ y) ≡ true → (y ≼ z) ≡ true → (x ≼ z) ≡ true
  pub lt-eq-not-le : (x y : W) → (x ≺ y) ≡ not (y ≼ x)
  pub le_total : (x y : W) → ((x ≼ y) ≡ true) ⊎ ((y ≼ x) ≡ true)
  pub eq-eq-le : (x y : W) → (x ≈ y) ≡ ((x ≼ y) && (y ≼ x))
  pub sub_mono : (x y z : W) → (x ≼ y) ≡ true → (x ⊖ z ≼ y ⊖ z) ≡ true
  pub neg_anti : (x y : W) → (x ≼ y) ≡ true → (n.neg y ≼ n.neg x) ≡ true
  -- Division raises at zero alone, and by a positive number it is monotone.
  pub div_defined : (x z : W) → (z ≈ whole 0) ≡ false → (q : W) × (x ⊘ z ≡ some q)
  pub div_mono :
      (x y z p q : W)
      → (whole 0 ≺ z) ≡ true
      → (x ≼ y) ≡ true
      → x ⊘ z ≡ some p
      → y ⊘ z ≡ some q
      → (p ≼ q) ≡ true

module _ {ℓ} {W : Type ℓ} ⦃n : Number W⦄ (o : IsOrdered W) where
  pub le_refl : (x : W) → (x ≼ x) ≡ true
  le_refl x = elim (o.le_total x x) [ inl h ↦ h | inr h ↦ h ]

  pub lt→le : (x y : W) → (x ≺ y) ≡ true → (x ≼ y) ≡ true
  lt→le x y h = ground (arith, o.le_total x y, o.lt-eq-not-le x y)

  pub not-lt→le : (x y : W) → (x ≺ y) ≡ false → (y ≼ x) ≡ true
  not-lt→le x y h = ground (arith, o.lt-eq-not-le x y)

  pub lt-le_trans : (x y z : W) → (x ≺ y) ≡ true → (y ≼ z) ≡ true → (x ≺ z) ≡ true
  lt-le_trans x y z h k = ground (arith, o.lt-eq-not-le x y, o.lt-eq-not-le x z, o.le_trans y z x)

  -- A positive number is not zero.
  pub pos-ne : (x : W) → (whole 0 ≺ x) ≡ true → (x ≈ whole 0) ≡ false
  pos-ne x h = ground (arith, o.lt-eq-not-le (whole 0) x, o.eq-eq-le x (whole 0))

-- Signs: rounding never takes a sum, a difference or a product across zero.
pub record IsSigned {ℓ} (W : Type ℓ) ⦃n : Number W⦄ : Type ℓ where
  pub sub_nonneg : (x y : W) → (x ≺ y) ≡ false → (whole 0 ≼ x ⊖ y) ≡ true
  pub sub_pos : (x y : W) → (y ≺ x) ≡ true → (whole 0 ≺ x ⊖ y) ≡ true
  pub add_nonneg :
      (x y : W) → (whole 0 ≼ x) ≡ true → (whole 0 ≼ y) ≡ true → (whole 0 ≼ x ⊕ y) ≡ true
  pub add_pos : (x y : W) → (whole 0 ≺ x) ≡ true → (whole 0 ≺ y) ≡ true → (whole 0 ≺ x ⊕ y) ≡ true
  pub mul_nonneg :
      (x y : W) → (whole 0 ≼ x) ≡ true → (whole 0 ≼ y) ≡ true → (whole 0 ≼ x ⊗ y) ≡ true

-- A number less itself is zero, whatever the precision.
pub record IsCancelling {ℓ} (W : Type ℓ) ⦃n : Number W⦄ : Type ℓ where
  pub sub_self : (x : W) → (x ⊖ x ≼ whole 0) ≡ true

-- A hundredfold keeps the order.
pub record IsScaling {ℓ} (W : Type ℓ) ⦃n : Number W⦄ : Type ℓ where
  pub percent_mono : (x y : W) → (x ≼ y) ≡ true → (x ⊗ whole 100 ≼ y ⊗ whole 100) ≡ true
