-- ===== src/Core/Message.antt =====
-- include/fix/core/field.hpp and message.hpp: a message is an ordered list of fields.
pub mod Access
pub mod Clean
use fix_protocol.Prelude.{
  ℕ, zero, ◌^◌, ◌≡◌, Bool, true, false, ◌||◌, not, Option, none, some, List, [], ◌∷◌, ◌++◌, Bytes,
  codes, equal, ◌==◌, if◌then◌else◌, ℤ, to_int64, to_uint64,
}
use fix_protocol.Prelude.Decimal.{int_to_decimal, from_chars_int64}
use fix_protocol.Core.Types.{ErrorCode, invalid_field, Result, ok, err, FixVersion, parse_version}
use fix_protocol.Core.Tags
use mathlib.Core.Option

pub record Field : Type 0 where
  pub tag : ℕ
  pub value : Bytes

pub record Message : Type 0 where
  pub fields : List Field
  pub raw : Bytes
  pub duplicate_header : Bool

abbrev pub empty : Message
empty = record { fields = []; raw = []; duplicate_header = false }

abbrev pub soh : ℕ
soh = 1

-- NUL or SOH among the bytes.
unfoldable pub has_invalid_wire_chars : Bytes → Bool
has_invalid_wire_chars [] = false
has_invalid_wire_chars (c ∷ cs) = c == 0 || c == soh || has_invalid_wire_chars cs

-- The loop of `set`: the first field with the tag takes the value, or a new field is appended.
unfoldable pub set_field : List Field → ℕ → Bytes → List Field
set_field [] tag value = record { tag = tag; value = value } ∷ []
set_field (f ∷ fs) tag value =
    if f.tag == tag then record f { value = value } ∷ fs else f ∷ set_field fs tag value

-- The message that results, and the result that the caller sees.
unfoldable pub set : Message → ℕ → Bytes → Message × Result (Unit {0})
unfolding set_field has_invalid_wire_chars
set m tag value =
    if has_invalid_wire_chars value
    then (m, err invalid_field)
    else (record m { fields = set_field m.fields tag value }, ok tt)

unfoldable pub add : Message → ℕ → Bytes → Message × Result (Unit {0})
unfolding has_invalid_wire_chars
add m tag value =
    if has_invalid_wire_chars value
    then (m, err invalid_field)
    else (record m { fields = m.fields ++ record { tag = tag; value = value } ∷ [] }, ok tt)

unfoldable pub set_int : Message → ℕ → ℤ → Message × Result (Unit {0})
unfolding set int_to_decimal
set_int m tag value = set m tag (int_to_decimal value)

unfoldable pub add_int : Message → ℕ → ℤ → Message × Result (Unit {0})
unfolding add int_to_decimal
add_int m tag value = add m tag (int_to_decimal value)

abbrev pub flag_text : Bool → Bytes
flag_text b = if b then codes "Y" else codes "N"

unfoldable pub set_bool : Message → ℕ → Bool → Message × Result (Unit {0})
unfolding set
set_bool m tag value = set m tag (flag_text value)

unfoldable pub add_bool : Message → ℕ → Bool → Message × Result (Unit {0})
unfolding add
add_bool m tag value = add m tag (flag_text value)

-- First occurrence wins.
unfoldable pub find_field : List Field → ℕ → Option Bytes
find_field [] tag = none
find_field (f ∷ fs) tag = if f.tag == tag then some f.value else find_field fs tag

unfoldable pub get : Message → ℕ → Option Bytes
unfolding find_field
get m tag = find_field m.fields tag

unfoldable pub all_values : List Field → ℕ → List Bytes
all_values [] tag = []
all_values (f ∷ fs) tag = if f.tag == tag then f.value ∷ all_values fs tag else all_values fs tag

unfoldable pub get_all : Message → ℕ → List Bytes
unfolding all_values
get_all m tag = all_values m.fields tag

abbrev has_value : Option Bytes → Bool
has_value none = false
has_value (some _) = true

unfoldable pub has : Message → ℕ → Bool
unfolding get
has m tag = has_value (get m tag)

abbrev pub value_or : Option Bytes → Bytes → Bytes
value_or none d = d
value_or (some v) d = v

-- Only the error code is tested: text behind the digits is ignored.
abbrev parse_int : Option Bytes → Option ℤ
parse_int none = none
parse_int (some v) = Option.map (λ r. r.0) (from_chars_int64 v)

unfoldable pub get_int : Message → ℕ → Option ℤ
unfolding get from_chars_int64
get_int m tag = parse_int (get m tag)

unfoldable pub remove_fields : List Field → ℕ → List Field
remove_fields [] tag = []
remove_fields (f ∷ fs) tag = if f.tag == tag then remove_fields fs tag else f ∷ remove_fields fs tag

unfoldable pub remove : Message → ℕ → Message
unfolding remove_fields
remove m tag = record m { fields = remove_fields m.fields tag }

unfoldable pub msg_type : Message → Bytes
unfolding get
msg_type m = value_or (get m Tags.msg_type) []

unfoldable pub begin_string_version : Message → FixVersion
unfolding get parse_version
begin_string_version m = parse_version (value_or (get m Tags.begin_string) [])

abbrev int_or_zero : Option ℤ → ℤ
int_or_zero none = ℤ.pos 0
int_or_zero (some z) = z

unfoldable pub seq_num : Message → ℕ
unfolding get_int
seq_num m = to_uint64 (int_or_zero (get_int m Tags.msg_seq_num))

unfoldable pub sender_comp_id : Message → Bytes
unfolding get
sender_comp_id m = value_or (get m Tags.sender_comp_id) []

unfoldable pub target_comp_id : Message → Bytes
unfolding get
target_comp_id m = value_or (get m Tags.target_comp_id) []

unfoldable pub poss_dup : Message → Bool
unfolding get equal
poss_dup m = equal (value_or (get m Tags.poss_dup_flag) (codes "N")) (codes "Y")

unfoldable pub mark_duplicate_header : Message → Message
mark_duplicate_header m = record m { duplicate_header = true }

unfoldable pub set_raw : Message → Bytes → Message
set_raw m raw = record m { raw = raw }

unfoldable pub clear : Message → Message
clear m = empty

-- The constructor that takes a message type.
unfoldable pub message : Bytes → Message
unfolding set
message mt = (set empty Tags.msg_type mt).0

-- `Field::as_bool`.
unfoldable pub as_bool : Field → Option Bool
unfolding equal
as_bool f =
    if equal f.value (codes "Y") || equal f.value (codes "y")
    then some true
    else if equal f.value (codes "N") || equal f.value (codes "n")
    then some false
    else none
