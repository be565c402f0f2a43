-- ===== src/Parser/Field/Span.antt =====
-- `parse_field` reads exactly one well-formed field off the front of the bytes.
use fix_protocol.Prelude.{
  ℕ, ◌+◌, ◌<◌, ◌≡◌, refl, Bool, true, false, Option, none, some, [], ◌∷◌, ◌++◌, Bytes, arith, ◌==◌,
  length, All, ap, all_below, all_below_lem,
}
use fix_protocol.Prelude.Decimal.{
  to_decimal, to_decimal-IsDigit, from_chars, from_chars-to_decimal, whole, IsDigit, three_digits,
}
use fix_protocol.Core.Message.{soh, has_invalid_wire_chars}
use fix_protocol.Parser.Field.{
  span, ok, ends_tag, is_soh, finish_field, after_tag, parse_field, tag_limit, parse_checksum,
}

abbrev Passed : (ℕ → Bool) → Bytes → Type 0
Passed stop s = All (λ c. stop c ≡ false) s

span-append :
    (stop : ℕ → Bool) (s : Bytes) (c : ℕ) (rest : Bytes)
    → Passed stop s
    → stop c ≡ true
    → span stop (s ++ (c ∷ rest)) ≡ (s, c ∷ rest)
unfolding span
span-append stop [] c rest h e = rw e
span-append stop (x ∷ s) c rest h e = rw (h.0, span-append stop s c rest h.1 e)

digits-Passed : (s : Bytes) → All IsDigit s → Passed ends_tag s
digits-Passed [] h = tt
digits-Passed (c ∷ s) h = (ground arith, digits-Passed s h.1)

value-Passed : (s : Bytes) → has_invalid_wire_chars s ≡ false → Passed is_soh s
unfolding has_invalid_wire_chars
value-Passed [] h = tt
value-Passed (c ∷ s) h = (ground arith, value-Passed s (ground arith))

-- `name=value<SOH>rest`, with a name that is a number and a value without NUL or SOH.
pub parse_field_named :
    (name value rest : Bytes) (tag : ℕ)
    → All IsDigit name
    → whole (from_chars tag_limit name) ≡ some tag
    → has_invalid_wire_chars value ≡ false
    → parse_field (name ++ (b'=' ∷ (value ++ (soh ∷ rest))))
      ≡ ok tag value (length name + 1 + length value + 1)
unfolding parse_field after_tag finish_field
parse_field_named name value rest tag d n v = rw (
  span-append ends_tag name b'=' (value ++ (soh ∷ rest)) (digits-Passed name d) refl,
  n,
  span-append is_soh value soh rest (value-Passed value v) refl,
)

-- A tag in decimal is the field's tag.
pub parse_field_decimal :
    (tag : ℕ) (value rest : Bytes)
    → tag < tag_limit
    → has_invalid_wire_chars value ≡ false
    → parse_field (to_decimal tag ++ (b'=' ∷ (value ++ (soh ∷ rest))))
      ≡ ok tag value (length (to_decimal tag) + 1 + length value + 1)
parse_field_decimal tag value rest h v =
    parse_field_named (to_decimal tag) value rest tag (to_decimal-IsDigit tag)
      (ap whole (from_chars-to_decimal tag_limit tag h)) v

abbrev is_some_of : Option ℕ → ℕ → Bool
is_some_of none n = false
is_some_of (some m) n = m == n

checksum_table : all_below (λ n. is_some_of (parse_checksum (three_digits n)) n) 256 ≡ true
unfolding all_below parse_checksum three_digits
checksum_table = refl

is_some_of_lem : (o : Option ℕ) (n : ℕ) → is_some_of o n ≡ true → o ≡ some n
is_some_of_lem none n h = cc
is_some_of_lem (some m) n h = ground arith

-- Every byte is read back from its three digits.
pub parse_checksum-three_digits : (n : ℕ) → n < 256 → parse_checksum (three_digits n) ≡ some n
parse_checksum-three_digits n h =
    is_some_of_lem _ n
      (all_below_lem (λ k. is_some_of (parse_checksum (three_digits k)) k) 256 n h checksum_table)
