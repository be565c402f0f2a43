-- ===== src/Parser/Field.antt =====
-- src/parser/parser.cpp: one `Tag=Value<SOH>` field, the checksum and its three digits, and the
-- standard-header tags.
pub mod HeaderTags
pub mod Span
use fix_protocol.Prelude.{
  ℕ, ◌+◌, ◌^◌, ◌%◌, ◌≡◌, refl, Bool, true, false, not, ◌&&◌, ◌||◌, Option, none, some, List, [],
  ◌∷◌, ◌++◌, Bytes, ◌==◌, leb, ltb, if◌then◌else◌, length,
}
use fix_protocol.Prelude.Decimal.{from_chars, is_digit, whole}
use fix_protocol.Core.Message.{soh}
use fix_protocol.Core.Tags

-- `TagNum` is a 32-bit word and `std::size_t` a 64-bit one.
abbrev pub tag_limit : ℕ
tag_limit = 2 ^ 32

abbrev pub size_limit : ℕ
size_limit = 2 ^ 64

-- The scan `while (i < len && !stop(data[i])) ++i`: the bytes passed over and those left.
unfoldable pub span : (ℕ → Bool) → Bytes → Bytes × Bytes
span stop [] = ([], [])
span stop (c ∷ cs) =
    let rest = span stop cs in if stop c then ([], c ∷ cs) else (c ∷ rest.0, rest.1)

-- `FieldStatus` with the tag, value and consumed bytes of an `Ok`.
pub data FieldStatus : Type 0 where
  ok : ℕ → Bytes → ℕ → FieldStatus
  incomplete : FieldStatus
  invalid : FieldStatus

abbrev pub ends_tag : ℕ → Bool
ends_tag c = c == b'=' || c == soh

abbrev pub is_soh : ℕ → Bool
is_soh c = c == soh

-- The value and its SOH, behind a tag of `width` bytes and the `=`.
unfoldable pub finish_value : ℕ → ℕ → Bytes × Bytes → FieldStatus
finish_value tag width (value, []) = incomplete
finish_value tag width (value, _ ∷ _) = ok tag value (width + 1 + length value + 1)

unfoldable pub finish_field : Bytes → Option ℕ → Bytes → FieldStatus
unfolding finish_value
finish_field name none after = invalid
finish_field name (some tag) after = finish_value tag (length name) (span is_soh after)

-- Behind the scan for `=`: what stands there, and the tag before it.
unfoldable pub after_tag : Bytes × Bytes → FieldStatus
after_tag (name, []) = incomplete
after_tag (name, c ∷ after) =
    if c == soh then invalid else finish_field name (whole (from_chars tag_limit name)) after

unfoldable pub parse_field : Bytes → FieldStatus
parse_field s = after_tag (span ends_tag s)

-- The sum of the bytes as a 32-bit word.
unfoldable pub byte_sum : ℕ → Bytes → ℕ
byte_sum sum [] = sum
byte_sum sum (c ∷ cs) = byte_sum ((sum + c) % 2 ^ 32) cs

unfoldable pub compute_checksum : Bytes → ℕ
unfolding byte_sum
compute_checksum s = byte_sum 0 s % 256

abbrev at_most_255 : Option ℕ → Option ℕ
at_most_255 none = none
at_most_255 (some n) = if leb n 255 then some n else none

-- Three digits, not above 255; `none` is a refusal.
unfoldable pub parse_checksum : Bytes → Option ℕ
unfolding from_chars
parse_checksum (a ∷ b ∷ c ∷ []) =
    if is_digit a && (is_digit b && is_digit c)
    then at_most_255 (whole (from_chars (2 ^ 32) (a ∷ b ∷ c ∷ [])))
    else none
parse_checksum _ = none

abbrev pub standard_header_tags : List ℕ
standard_header_tags =
    Tags.begin_string ∷ Tags.body_length ∷ Tags.msg_type ∷ Tags.sender_comp_id ∷ Tags.sender_sub_id
    ∷ Tags.sender_location_id ∷ Tags.target_comp_id ∷ Tags.target_sub_id ∷ Tags.target_location_id
    ∷ Tags.on_behalf_of_comp_id ∷ 144 ∷ Tags.deliver_to_comp_id ∷ 145 ∷ Tags.secure_data_len
    ∷ Tags.secure_data ∷ Tags.msg_seq_num ∷ Tags.poss_dup_flag ∷ Tags.poss_resend
    ∷ Tags.orig_sending_time ∷ Tags.sending_time ∷ Tags.xml_data_len ∷ Tags.xml_data
    ∷ Tags.message_encoding ∷ Tags.last_msg_seq_num_processed ∷ Tags.no_hops ∷ Tags.appl_ver_id
    ∷ Tags.cstm_appl_ver_id ∷ []

abbrev pub header_tag_count : ℕ
header_tag_count = length standard_header_tags

unfoldable pub contains : List ℕ → ℕ → Bool
contains [] tag = false
contains (t ∷ ts) tag = t == tag || contains ts tag

unfoldable pub is_standard_header_tag : ℕ → Bool
unfolding contains
is_standard_header_tag tag = contains standard_header_tags tag

-- `HeaderSeen::check_and_mark` on the recorded tags; `aborted` is the `std::abort` of a full array.
pub data Mark : Type 0 where
  present : Mark
  marked : List ℕ → Mark
  aborted : Mark

unfoldable pub check_and_mark : List ℕ → ℕ → Mark
unfolding contains
check_and_mark seen tag =
    if contains seen tag
    then present
    else if leb header_tag_count (length seen)
    then aborted
    else marked (seen ++ tag ∷ [])
