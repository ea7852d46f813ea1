-- ===== src/Prelude/Text.antt =====
-- Strings as their UTF-16 code units, with the string methods that the domain code calls, dates as
-- the milliseconds that `getTime` returns, and the `number` values that the code tests.
pub mod Trim
pub mod Decimal
use Prim.Native.String.{String}
use Prim.Native.Char.{code}
use cullen.Prelude.{
  ℕ, ◌≡◌, refl, Bool, true, false, ◌&&◌, ◌||◌, List, [], ◌∷◌, arith, ltb, leb, ◌==◌, if◌then◌else◌,
}
use cullen.Prelude.Int.{ℤ, pos, negsuc, ltb_ℤ, eqb_ℤ}
use mathlib.Core.List.{reverse}

abbrev pub Text : Type 0
Text = List ℕ

-- A literal of the program.
abbrev pub codes : String → Text
codes String.[] = []
codes (String.◌∷◌ c s) = code c ∷ codes s

-- `===` on strings
unfoldable pub eqb : Text → Text → Bool
eqb [] [] = true
eqb [] (y ∷ ys) = false
eqb (x ∷ xs) [] = false
eqb (x ∷ xs) (y ∷ ys) = x == y && eqb xs ys

pub eqb→eq : (s t : Text) → eqb s t ≡ true → s ≡ t
unfolding eqb
eqb→eq [] [] h = refl
eqb→eq [] (y ∷ ys) h = cc
eqb→eq (x ∷ xs) [] h = cc
eqb→eq (x ∷ xs) (y ∷ ys) h = ground (arith, eqb→eq xs ys)

pub eqb_refl : (s : Text) → eqb s s ≡ true
unfolding eqb
eqb_refl [] = refl
eqb_refl (x ∷ xs) = ground (arith, eqb_refl xs)

-- The code units that `String.prototype.trim` removes: white space and line terminators.
unfoldable pub is_space : ℕ → Bool
is_space c =
    (leb 9 c && leb c 13)
    || c == 32
    || c == 160
    || c == 5760
    || (leb 8192 c && leb c 8202)
    || c == 8232
    || c == 8233
    || c == 8239
    || c == 8287
    || c == 12288
    || c == 65279

unfoldable pub trim_start : Text → Text
trim_start [] = []
trim_start (c ∷ s) = if is_space c then trim_start s else c ∷ s

-- `String.prototype.trim`
unfoldable pub trim : Text → Text
unfolding trim_start is_space
trim s = reverse (trim_start (reverse (trim_start s)))

-- `Date`: what `getTime` returns, `NaN` for an invalid date.
pub data Date : Type 0 where
  invalid_date : Date
  instant : ℤ → Date

-- `Number.isNaN(date.getTime())`
abbrev pub is_invalid : Date → Bool
is_invalid invalid_date = true
is_invalid (instant ms) = false

-- `left.getTime() < right.getTime()`, false when one of them is `NaN`
abbrev pub date_lt : Date → Date → Bool
date_lt (instant a) (instant b) = ltb_ℤ a b
date_lt (instant a) invalid_date = false
date_lt invalid_date d = false

-- `left.getTime() === right.getTime()`, false when one of them is `NaN`
abbrev pub date_eqb : Date → Date → Bool
date_eqb (instant a) (instant b) = eqb_ℤ a b
date_eqb (instant a) invalid_date = false
date_eqb invalid_date d = false

-- A `number`: an integer, or any other value (a fraction, an infinity, `NaN`).
pub data Number : Type 0 where
  integer : ℤ → Number
  not_integer : Number

-- `Number.MAX_SAFE_INTEGER`, 2 ^ 53 - 1
abbrev pub max_safe_integer : ℕ
max_safe_integer = 9007199254740991

-- Whether an integer lies between `MIN_SAFE_INTEGER` and `MAX_SAFE_INTEGER`.
abbrev pub is_safe : ℤ → Bool
is_safe (pos n) = leb n max_safe_integer
is_safe (negsuc n) = ltb n max_safe_integer

-- `Number.isSafeInteger`
abbrev pub is_safe_integer : Number → Bool
is_safe_integer (integer z) = is_safe z
is_safe_integer not_integer = false
