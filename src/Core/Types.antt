-- ===== src/Core/Types.antt =====
-- include/fix/core/types.hpp: error codes, results, versions and session identifiers.
use fix_protocol.Prelude.{
  ◌≡◌, refl, ◌≢◌, Bool, ◌++◌, Bytes, codes, equal, equal_iff, if◌then◌else◌, arith, [], ◌∷◌,
}

-- `std::error_code` of the "fix" category; no error is `none` of `Option ErrorCode`.
pub data ErrorCode : Type 0 where
  parse_error validation_error sequence_error session_error transport_error store_error : ErrorCode
  dictionary_error timeout_error auth_error unsupported_version missing_field : ErrorCode
  invalid_field duplicate_field bad_checksum bad_length unknown_message reject_code : ErrorCode

-- The text of an error code.
unfoldable pub error_message : ErrorCode → Bytes
error_message parse_error = codes "parse error"
error_message validation_error = codes "validation error"
error_message sequence_error = codes "sequence error"
error_message session_error = codes "session error"
error_message transport_error = codes "transport error"
error_message store_error = codes "store error"
error_message dictionary_error = codes "dictionary error"
error_message timeout_error = codes "timeout"
error_message auth_error = codes "authentication error"
error_message unsupported_version = codes "unsupported FIX version"
error_message missing_field = codes "missing required field"
error_message invalid_field = codes "invalid field value"
error_message duplicate_field = codes "duplicate field"
error_message bad_checksum = codes "bad checksum"
error_message bad_length = codes "bad body length"
error_message unknown_message = codes "unknown message type"
error_message reject_code = codes "message rejected"

-- `std::expected<T, std::error_code>`.
pub data Result {ℓ} (A : Type ℓ) : Type ℓ where
  ok : A → Result A
  err : ErrorCode → Result A

-- The value of `Result<void>`.
abbrev pub Done : Type 0
Done = Unit {0}

pub data FixVersion : Type 0 where
  fix_4_0 fix_4_1 fix_4_2 fix_4_3 fix_4_4 fix_5_0 fix_5_0_sp1 fix_5_0_sp2 fixt_1_1 : FixVersion
  unknown : FixVersion

pub FixVersion-discrete : Discrete FixVersion
FixVersion-discrete = hlevel

unfoldable pub version_text : FixVersion → Bytes
version_text fix_4_0 = codes "FIX.4.0"
version_text fix_4_1 = codes "FIX.4.1"
version_text fix_4_2 = codes "FIX.4.2"
version_text fix_4_3 = codes "FIX.4.3"
version_text fix_4_4 = codes "FIX.4.4"
version_text fix_5_0 = codes "FIX.5.0"
version_text fix_5_0_sp1 = codes "FIX.5.0SP1"
version_text fix_5_0_sp2 = codes "FIX.5.0SP2"
version_text fixt_1_1 = codes "FIXT.1.1"
version_text unknown = codes "Unknown"

unfoldable pub parse_version : Bytes → FixVersion
parse_version sv =
    if equal sv (codes "FIX.4.0")
    then fix_4_0
    else if equal sv (codes "FIX.4.1")
    then fix_4_1
    else if equal sv (codes "FIX.4.2")
    then fix_4_2
    else if equal sv (codes "FIX.4.3")
    then fix_4_3
    else if equal sv (codes "FIX.4.4")
    then fix_4_4
    else if equal sv (codes "FIX.5.0")
    then fix_5_0
    else if equal sv (codes "FIX.5.0SP1")
    then fix_5_0_sp1
    else if equal sv (codes "FIX.5.0SP2")
    then fix_5_0_sp2
    else if equal sv (codes "FIXT.1.1")
    then fixt_1_1
    else unknown

-- Every version is read back from its text, the unknown one included.
pub parse_version-version_text : (v : FixVersion) → parse_version (version_text v) ≡ v
unfolding parse_version version_text equal
parse_version-version_text fix_4_0 = refl
parse_version-version_text fix_4_1 = refl
parse_version-version_text fix_4_2 = refl
parse_version-version_text fix_4_3 = refl
parse_version-version_text fix_4_4 = refl
parse_version-version_text fix_5_0 = refl
parse_version-version_text fix_5_0_sp1 = refl
parse_version-version_text fix_5_0_sp2 = refl
parse_version-version_text fixt_1_1 = refl
parse_version-version_text unknown = refl

-- A text is read as a known version only if it is that version's text.
pub parse_version_exact :
    (sv : Bytes) → parse_version sv ≢ unknown → sv ≡ version_text (parse_version sv)
unfolding parse_version version_text
parse_version_exact sv h = ground (
  arith,
  equal_iff sv (codes "FIX.4.0"),
  equal_iff sv (codes "FIX.4.1"),
  equal_iff sv (codes "FIX.4.2"),
  equal_iff sv (codes "FIX.4.3"),
  equal_iff sv (codes "FIX.4.4"),
  equal_iff sv (codes "FIX.5.0"),
  equal_iff sv (codes "FIX.5.0SP1"),
  equal_iff sv (codes "FIX.5.0SP2"),
  equal_iff sv (codes "FIXT.1.1"),
)

pub record SessionId : Type 0 where
  pub version : FixVersion
  pub sender_comp_id : Bytes
  pub target_comp_id : Bytes
  pub qualifier : Bytes

abbrev empty : Bytes → Bool
empty s = equal s []

-- `SessionID::to_string`, the name used in the audit log.
unfoldable pub session_id_text : SessionId → Bytes
unfolding version_text
session_id_text s =
    let head =
      version_text s.version ++ (b':' ∷ (s.sender_comp_id ++ (codes "->" ++ s.target_comp_id))) in
    if empty s.qualifier then head else head ++ (b'/' ∷ s.qualifier)
