-- ===== src/Base/Text.antt =====
-- Texts as lists of code points, with the methods of Python's `str` that the program calls.
use Prim.Native.Char.{code}
use Prim.Native.Nat.{ℕ, zero, suc, ◌+◌, ◌-◌, ◌/◌, ◌%◌, ◌≤◌}
use Prim.Native.String.{String}
use mathlib.Core.Path.{◌≡◌, refl}
use mathlib.Core.Bool.{Bool, true, false, ◌&&◌, ◌||◌}
use mathlib.Core.List.{List, [], ◌∷◌, ◌++◌}
use native.Mathlib.Omega.{arith}
use coin_pilot.Base.Tests.{leb, ltb, ◌==◌, if◌then◌else◌}
use coin_pilot.Base.Lists.{length, take, any}

abbrev pub Text : Type 0
Text = List ℕ

abbrev pub codes : String → Text
codes String.[] = []
codes (String.◌∷◌ c s) = code c ∷ codes s

-- `str.lower`: besides A to Z, only the Kelvin sign and the I with a dot have an ASCII letter as
-- or in their lower case, and the program looks for ASCII and Hangul, which has no case.
abbrev pub lower_char : ℕ → Text
lower_char c =
    if leb 65 c && leb c 90
    then (c + 32) ∷ []
    else if c == 8490
    then 107 ∷ []
    else if c == 304
    then 105 ∷ 775 ∷ []
    else c ∷ []

abbrev pub lower : Text → Text
lower [] = []
lower (c ∷ s) = lower_char c ++ lower s

abbrev pub starts_with : Text → Text → Bool
starts_with [] s = true
starts_with (c ∷ part) [] = false
starts_with (c ∷ part) (a ∷ s) = (c == a) && starts_with part s

-- `part in s`
abbrev pub contains : Text → Text → Bool
contains part [] = starts_with part []
contains part (a ∷ s) = starts_with part (a ∷ s) || contains part s

-- `any(part in s for part in parts)`
abbrev pub contains_any : List String → Text → Bool
contains_any parts s = any (λ part. contains (codes part) s) parts

abbrev pub text_eq : Text → Text → Bool
text_eq [] [] = true
text_eq (a ∷ s) (b ∷ t) = (a == b) && text_eq s t
text_eq _ _ = false

-- `str.isspace` of a character.
abbrev pub is_space : ℕ → Bool
is_space c =
    leb 9 c && leb c 13
    || leb 28 c && leb c 32
    || (c == 133)
    || (c == 160)
    || (c == 5760)
    || leb 8192 c && leb c 8202
    || (c == 8232)
    || (c == 8233)
    || (c == 8239)
    || (c == 8287)
    || (c == 12_288)

abbrev pub lstrip : Text → Text
lstrip [] = []
lstrip (c ∷ s) = let rest = lstrip s in if is_space c then rest else c ∷ s

-- A space goes when nothing but spaces follows.
abbrev keep : ℕ → Text → Text
keep c [] = if is_space c then [] else c ∷ []
keep c (a ∷ s) = c ∷ a ∷ s

unfoldable pub rstrip : Text → Text
rstrip [] = []
rstrip (c ∷ s) = keep c (rstrip s)

unfoldable pub strip : Text → Text
unfolding rstrip
strip s = rstrip (lstrip s)

-- `s.replace(part, "")`, for a part that is not empty: `skip` characters of a match are left.
unfoldable pub cut_out : Text → ℕ → Text → Text
cut_out part skip [] = []
cut_out part (suc skip) (c ∷ s) = cut_out part skip s
cut_out part zero (c ∷ s) = elim (starts_with part (c ∷ s)) [
  | true ↦ cut_out part (length part - 1) s
  | false ↦ c ∷ cut_out part 0 s
]

abbrev pub remove : Text → Text → Text
remove part s = cut_out part 0 s

abbrev pub newline : Text
newline = 10 ∷ []

-- `"\n".join(lines)`
abbrev pub join_lines : List Text → Text
join_lines [] = []
join_lines (s ∷ []) = s
join_lines (s ∷ t ∷ lines) = s ++ newline ++ join_lines (t ∷ lines)

-- The digits of a number, in front of a text; the fuel is a bound of the number.
abbrev digits_on : ℕ → ℕ → Text → Text
digits_on zero n out = (48 + n % 10) ∷ out
digits_on (suc fuel) n out = elim (ltb n 10) [
  | true ↦ (48 + n) ∷ out
  | false ↦ digits_on fuel (n / 10) ((48 + n % 10) ∷ out)
]

-- `str(n)`
unfoldable pub show : ℕ → Text
show n = digits_on n n []

pub length-append : (s t : Text) → length (s ++ t) ≡ length s + length t
length-append [] t = omega arith
length-append (c ∷ s) t = ground (arith, length-append s t)

keep-length : (c : ℕ) (s : Text) → length (keep c s) ≤ length s + 1
keep-length c [] = ground arith
keep-length c (a ∷ s) = omega arith

pub length-rstrip : (s : Text) → length (rstrip s) ≤ length s
unfolding rstrip
length-rstrip [] = omega arith
length-rstrip (c ∷ s) = omega (arith, keep-length c (rstrip s), length-rstrip s)

pub length-take : (n : ℕ) (s : Text) → length (take n s) ≤ n
length-take zero s = omega arith
length-take (suc n) [] = omega arith
length-take (suc n) (c ∷ s) = omega (arith, length-take n s)

pub text_eq_refl : (s : Text) → text_eq s s ≡ true
text_eq_refl [] = refl
text_eq_refl (c ∷ s) = ground (arith, text_eq_refl s)

pub eq_of_text_eq : (s t : Text) → text_eq s t ≡ true → s ≡ t
eq_of_text_eq [] [] h = refl
eq_of_text_eq [] (b ∷ t) h = ground arith
eq_of_text_eq (a ∷ s) [] h = ground arith
eq_of_text_eq (a ∷ s) (b ∷ t) h = ground (arith, eq_of_text_eq s t)

shows : show 1205 ≡ codes "1205"
unfolding show
shows = refl

strips : strip (codes " ab c \n") ≡ codes "ab c"
unfolding strip rstrip
strips = refl

removes : remove (codes "ab") (codes "xabyaba") ≡ codes "xya"
unfolding cut_out
removes = refl
