-- ===== src/Number/Fixed.antt =====
-- A type of numbers at which the theorems are tried out: whole multiples of 1 / 10000, rounded down.
-- It meets every law that the proofs use.
use coin_pilot.Base.{
  ℕ, zero, suc, ◌++◌, List, [], ◌∷◌, ◌*◌, ◌/◌, ◌^◌, ◌≤◌, ◌≡◌, refl, true, false, ◌&&◌, Option, none,
  some, arith,
}
use coin_pilot.Base.Int.{ℤ, pos, negsuc, ◌+ℤ◌, ◌-ℤ◌, ◌*ℤ◌, leb_ℤ, ltb_ℤ, -ℤ_parts, +ℤ_parts}
use coin_pilot.Base.Text.{codes, show, Text}
use coin_pilot.Number.{Number, Convert}
use coin_pilot.Number.Format.{Format, Stats}
use coin_pilot.Number.Order.{IsOrdered, IsSigned, IsCancelling, IsScaling}

-- The quotient, rounded towards minus infinity.
abbrev floor_div : ℤ → ℕ → ℤ
floor_div (pos a) d = pos (a / d)
floor_div (negsuc a) d = negsuc (a / d)

abbrev quotient : ℤ → ℤ → Option ℤ
quotient a (pos zero) = none
quotient a (pos (suc k)) = some (floor_div (a *ℤ pos 10_000) (suc k))
quotient a (negsuc k) = some (floor_div ((pos 0 -ℤ a) *ℤ pos 10_000) (suc k))

instance abbrev pub fixed : Number ℤ
fixed = record {
  lit = λ m k. pos (m * 10_000 / 10 ^ k);
  add = ◌+ℤ◌;
  sub = ◌-ℤ◌;
  mul = λ a b. floor_div (a *ℤ b) 10_000;
  div = quotient;
  neg = λ a. pos 0 -ℤ a;
  lt = ltb_ℤ;
  le = leb_ℤ;
  eq = λ a b. leb_ℤ a b && leb_ℤ b a;
}

div_mono : (a b d : ℕ) → a ≤ b → a / d ≤ b / d
div_mono a b d h = grind arith

floor_div_mono : (a b : ℤ) (d : ℕ) → leb_ℤ a b ≡ true → leb_ℤ (floor_div a d) (floor_div b d) ≡ true
floor_div_mono (pos a) (pos b) d h = ground (arith, div_mono a b d)
floor_div_mono (pos a) (negsuc b) d h = ground arith
floor_div_mono (negsuc a) (pos b) d h = ground arith
floor_div_mono (negsuc a) (negsuc b) d h = ground (arith, div_mono b a d)

scale_mono : (a b : ℤ) → leb_ℤ a b ≡ true → leb_ℤ (a *ℤ pos 10_000) (b *ℤ pos 10_000) ≡ true
unfolding ◌*ℤ◌
scale_mono (pos a) (pos b) h = ground arith
scale_mono _ _ h = ground arith

quotient_defined : (x z : ℤ) → (fixed.eq z (pos 0)) ≡ false → (q : ℤ) × (quotient x z ≡ some q)
quotient_defined x (pos zero) h = cc
quotient_defined x (pos (suc k)) h = (_, refl)
quotient_defined x (negsuc k) h = (_, refl)

quotient_mono :
    (x y z p q : ℤ)
    → ltb_ℤ (pos 0) z ≡ true
    → leb_ℤ x y ≡ true
    → quotient x z ≡ some p
    → quotient y z ≡ some q
    → leb_ℤ p q ≡ true
quotient_mono x y (pos zero) p q pz h e f = cc
quotient_mono x y (pos (suc k)) p q pz h e f =
    cc (floor_div_mono (x *ℤ pos 10_000) (y *ℤ pos 10_000) (suc k) (scale_mono x y h))
quotient_mono x y (negsuc k) p q pz h e f = ground arith

sub_mono : (x y z : ℤ) → leb_ℤ x y ≡ true → leb_ℤ (x -ℤ z) (y -ℤ z) ≡ true
sub_mono x y z h = ground (arith, -ℤ_parts x z, -ℤ_parts y z)

neg_anti : (x y : ℤ) → leb_ℤ x y ≡ true → leb_ℤ (pos 0 -ℤ y) (pos 0 -ℤ x) ≡ true
neg_anti x y h = ground (arith, -ℤ_parts (pos 0) x, -ℤ_parts (pos 0) y)

pub fixed-IsOrdered : IsOrdered ℤ
fixed-IsOrdered = record {
  le_trans = λ x y z h k. ground arith;
  lt-eq-not-le = λ x y. ground arith;
  le_total = λ x y. ground arith;
  eq-eq-le = λ x y. refl;
  sub_mono = sub_mono;
  neg_anti = neg_anti;
  div_defined = quotient_defined;
  div_mono = quotient_mono;
}

mul_nonneg :
    (x y : ℤ)
    → leb_ℤ (pos 0) x ≡ true
    → leb_ℤ (pos 0) y ≡ true
    → leb_ℤ (pos 0) (floor_div (x *ℤ y) 10_000) ≡ true
unfolding ◌*ℤ◌
mul_nonneg (pos a) (pos b) h k = ground arith
mul_nonneg (pos a) (negsuc b) h k = ground arith
mul_nonneg (negsuc a) y h k = ground arith

pub fixed-IsSigned : IsSigned ℤ
fixed-IsSigned = record {
  sub_nonneg = λ x y h. ground (arith, -ℤ_parts x y);
  sub_pos = λ x y h. ground (arith, -ℤ_parts x y);
  add_nonneg = λ x y h k. ground (arith, +ℤ_parts x y);
  add_pos = λ x y h k. ground (arith, +ℤ_parts x y);
  mul_nonneg = mul_nonneg;
}

pub fixed-IsCancelling : IsCancelling ℤ
fixed-IsCancelling = record { sub_self = λ x. ground (arith, -ℤ_parts x x) }

hundred_mono : (a b : ℤ) → leb_ℤ a b ≡ true → leb_ℤ (a *ℤ pos 1_000_000) (b *ℤ pos 1_000_000) ≡ true
unfolding ◌*ℤ◌
hundred_mono (pos a) (pos b) h = ground arith
hundred_mono _ _ h = ground arith

pub fixed-IsScaling : IsScaling ℤ
fixed-IsScaling = record {
  percent_mono =
      λ x y h. floor_div_mono (x *ℤ pos 1_000_000) (y *ℤ pos 1_000_000) 10_000 (hundred_mono x y h);
}

-- `float(d)` and `Decimal(str(x))` where both types are this one.
instance abbrev pub same : Convert ℤ ℤ
same = record { to_float = λ x. x; to_decimal = λ x. x }

-- A sample of texts and of statistics for these numbers: the whole part stands for every format.
abbrev whole_text : ℤ → Text
whole_text (pos a) = show (a / 10_000)
whole_text (negsuc a) = codes "-" ++ show (suc a / 10_000)

instance abbrev pub fixed_format : Format ℤ
fixed_format = record {
  comma0 = whole_text;
  fixed1 = whole_text;
  fixed2 = whole_text;
  fixed8 = whole_text;
  signed2 = whole_text;
  truncate = λ x. floor_div x 10_000 *ℤ pos 10_000;
  digits = whole_text;
  repr = whole_text;
  round2 = λ x. floor_div x 100 *ℤ pos 100;
  round4 = λ x. x;
}

abbrev total : List ℤ → ℤ
total [] = pos 0
total (x ∷ xs) = x +ℤ total xs

abbrev size : List ℤ → ℕ
size [] = 0
size (x ∷ xs) = suc (size xs)

instance abbrev pub fixed_stats : Stats ℤ
fixed_stats = record {
  mean = λ xs. floor_div (total xs) (size xs);
  std = λ xs. pos 0;
  pct_change = λ xs. xs;
  sqrt_60 = pos 77_459;
}
