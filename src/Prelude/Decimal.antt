-- ===== src/Prelude/Decimal.antt =====
-- Decimal numbers: `std::to_string`, `std::to_chars` and `std::from_chars` on integers, and `%03u`.
use Prim.Native.Nat.{ℕ, zero, suc, ◌+◌, ◌-◌, ◌*◌, ◌/◌, ◌%◌, ◌^◌, ◌<◌, ◌≤◌}
use mathlib.Core.Path.{◌≡◌, refl}
use mathlib.Core.Bool.{Bool, true, false, ◌&&◌}
use mathlib.Core.Option.{Option, none, some}
use mathlib.Core.List.{[], ◌∷◌, ◌++◌, append-nil}
use native.Mathlib.Omega.{arith}
use fix_protocol.Prelude.Tests.{if◌then◌else◌, ltb, leb, ◌==◌}
use fix_protocol.Prelude.Lists.{length, All}
use fix_protocol.Prelude.Int.{ℤ, pos, negsuc}
use fix_protocol.Prelude.Text.{Bytes}

abbrev pub is_digit : ℕ → Bool
is_digit c = leb b'0' c && leb c b'9'

-- The digits of `n` in front of `out`; `n < fuel` is enough fuel.
unfoldable pub digits_onto : ℕ → ℕ → Bytes → Bytes
digits_onto zero n out = out
digits_onto (suc f) n out =
    let rest = digits_onto f (n / 10) ((b'0' + n % 10) ∷ out) in
    if ltb n 10 then (b'0' + n) ∷ out else rest

unfoldable pub to_decimal : ℕ → Bytes
unfolding digits_onto
to_decimal n = digits_onto (suc n) n []

-- `std::to_string` and `std::to_chars` of an int64.
unfoldable pub int_to_decimal : ℤ → Bytes
unfolding to_decimal
int_to_decimal (pos n) = to_decimal n
int_to_decimal (negsuc n) = b'-' ∷ to_decimal (n + 1)

-- The number that the leading digits spell behind `n`, and what follows them.
unfoldable pub scan_digits : ℕ → Bytes → ℕ × Bytes
scan_digits n [] = (n, [])
scan_digits n (c ∷ cs) =
    let rest = scan_digits (n * 10 + (c - b'0')) cs in if is_digit c then rest else (n, c ∷ cs)

abbrev pub starts_with_digit : Bytes → Bool
starts_with_digit [] = false
starts_with_digit (c ∷ _) = is_digit c

abbrev pub bounded : ℕ → ℕ × Bytes → Option (ℕ × Bytes)
bounded limit (n, rest) = if ltb n limit then some (n, rest) else none

-- `std::from_chars` of an unsigned type below `limit`: the value and what follows it. `none` is
-- any error code: no digit in front, or a value out of range.
unfoldable pub from_chars : ℕ → Bytes → Option (ℕ × Bytes)
unfolding scan_digits
from_chars limit s = if starts_with_digit s then bounded limit (scan_digits 0 s) else none

-- The value, if the whole text was read.
abbrev pub whole {ℓ} : {A : Type ℓ} → Option (A × Bytes) → Option A
whole none = none
whole (some (a, [])) = some a
whole (some (a, _ ∷ _)) = none

abbrev negated : Option (ℕ × Bytes) → Option (ℤ × Bytes)
negated none = none
negated (some (zero, rest)) = some (pos 0, rest)
negated (some (suc n, rest)) = some (negsuc n, rest)

abbrev unsigned : Option (ℕ × Bytes) → Option (ℤ × Bytes)
unsigned none = none
unsigned (some (n, rest)) = some (pos n, rest)

-- `std::from_chars` of an int64: one `-` may stand in front.
unfoldable pub from_chars_int64 : Bytes → Option (ℤ × Bytes)
unfolding from_chars
from_chars_int64 [] = none
from_chars_int64 (c ∷ cs) =
    if c == b'-'
    then negated (from_chars (2 ^ 63 + 1) cs)
    else unsigned (from_chars (2 ^ 63) (c ∷ cs))

-- `std::snprintf("%03u")` of a byte.
unfoldable pub three_digits : ℕ → Bytes
three_digits n = (b'0' + n / 100) ∷ (b'0' + n / 10 % 10) ∷ (b'0' + n % 10) ∷ []

to_decimal_test : to_decimal 9017 ≡ 57 ∷ 48 ∷ 49 ∷ 55 ∷ []
unfolding to_decimal
to_decimal_test = refl

from_chars_test : from_chars (2 ^ 32) (57 ∷ 48 ∷ 65 ∷ []) ≡ some (90, 65 ∷ [])
unfolding from_chars
from_chars_test = refl

abbrev pub IsDigit : ℕ → Type 0
IsDigit c = (b'0' ≤ c) × (c ≤ b'9')

digits_onto-IsDigit : (f n : ℕ) (out : Bytes) → All IsDigit out → All IsDigit (digits_onto f n out)
unfolding digits_onto
digits_onto-IsDigit zero n out h = h
digits_onto-IsDigit (suc f) n out h =
    ground (arith, digits_onto-IsDigit f (n / 10) ((b'0' + n % 10) ∷ out) (omega arith, h))

pub to_decimal-IsDigit : (n : ℕ) → All IsDigit (to_decimal n)
unfolding to_decimal
to_decimal-IsDigit n = digits_onto-IsDigit (suc n) n [] tt

scan_digits-cons :
    (c n : ℕ) (cs : Bytes)
    → IsDigit c
    → scan_digits n (c ∷ cs) ≡ scan_digits (n * 10 + (c - b'0')) cs
unfolding scan_digits
scan_digits-cons c n cs h = ground arith

-- Reading the digits of `n` ahead of `out` is reading `out` behind the value `n`.
scan_digits-digits_onto :
    (f n : ℕ) (out rest : Bytes)
    → n < f
    → scan_digits 0 (digits_onto f n out ++ rest) ≡ scan_digits n (out ++ rest)
unfolding digits_onto
scan_digits-digits_onto zero n out rest h = elim h [ ]
scan_digits-digits_onto (suc f) n out rest h = ground (
  arith,
  scan_digits-cons (b'0' + n) 0 (out ++ rest),
  scan_digits-cons (b'0' + n % 10) (n / 10) (out ++ rest),
  scan_digits-digits_onto f (n / 10) ((b'0' + n % 10) ∷ out) rest,
)

digits_onto-starts :
    (f n : ℕ) (out rest : Bytes) → n < f → starts_with_digit (digits_onto f n out ++ rest) ≡ true
unfolding digits_onto
digits_onto-starts zero n out rest h = elim h [ ]
digits_onto-starts (suc f) n out rest h =
    ground (arith, digits_onto-starts f (n / 10) ((b'0' + n % 10) ∷ out) rest)

digits_onto-length :
    (k f n : ℕ) (out : Bytes) → n < 10 ^ suc k → length (digits_onto f n out) ≤ suc k + length out
unfolding digits_onto
digits_onto-length k zero n out h = omega arith
digits_onto-length zero (suc f) n out h = ground arith
digits_onto-length (suc k) (suc f) n out h =
    ground (arith, digits_onto-length k f (n / 10) ((b'0' + n % 10) ∷ out))

pub to_decimal-length : (k n : ℕ) → n < 10 ^ suc k → length (to_decimal n) ≤ suc k
unfolding to_decimal
to_decimal-length k n h = omega (arith, digits_onto-length k (suc n) n [] h)

from_chars-digits_onto :
    (limit f n : ℕ) → n < f → n < limit → from_chars limit (digits_onto f n []) ≡ some (n, [])
unfolding from_chars
from_chars-digits_onto limit f n hf hl = rw (← append-nil (digits_onto f n [])) (
    rw (digits_onto-starts f n [] [] hf, scan_digits-digits_onto f n [] [] hf)
      (unfold scan_digits in ground arith))

-- A number is read back from its decimal print.
pub from_chars-to_decimal :
    (limit n : ℕ) → n < limit → from_chars limit (to_decimal n) ≡ some (n, [])
unfolding to_decimal
from_chars-to_decimal limit n h = from_chars-digits_onto limit (suc n) n (omega arith) h

from_chars_int64_unsigned :
    (n : ℕ) (s : Bytes)
    → All IsDigit s
    → from_chars (2 ^ 63) s ≡ some (n, [])
    → from_chars_int64 s ≡ some (pos n, [])
unfolding from_chars_int64
from_chars_int64_unsigned n [] d e = ground arith
from_chars_int64_unsigned n (c ∷ cs) d e = ground arith

-- So is an int64 that is not negative.
pub from_chars_int64-int_to_decimal :
    (n : ℕ) → n < 2 ^ 63 → from_chars_int64 (int_to_decimal (pos n)) ≡ some (pos n, [])
unfolding int_to_decimal
from_chars_int64-int_to_decimal n h =
    from_chars_int64_unsigned n (to_decimal n) (to_decimal-IsDigit n)
      (from_chars-to_decimal (2 ^ 63) n h)

pub to_decimal-starts : (n : ℕ) (rest : Bytes) → starts_with_digit (to_decimal n ++ rest) ≡ true
unfolding to_decimal
to_decimal-starts n rest = digits_onto-starts (suc n) n [] rest (omega arith)

scan_digits_end :
    (n : ℕ) (rest : Bytes) → starts_with_digit rest ≡ false → scan_digits n rest ≡ (n, rest)
unfolding scan_digits
scan_digits_end n [] h = refl
scan_digits_end n (c ∷ cs) h = rw h refl

-- So is a number with something behind it that is no digit.
pub from_chars-to_decimal_then :
    (limit n : ℕ) (rest : Bytes)
    → n < limit
    → starts_with_digit rest ≡ false
    → from_chars limit (to_decimal n ++ rest) ≡ some (n, rest)
unfolding from_chars to_decimal
from_chars-to_decimal_then limit n rest h e =
    rw (digits_onto-starts (suc n) n [] rest (omega arith)) (
      rw (scan_digits-digits_onto (suc n) n [] rest (omega arith))
        (rw (scan_digits_end n rest e) (ground arith)))
