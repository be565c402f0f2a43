-- ===== src/Serializer.antt =====
-- include/fix/parser/serializer.hpp and src/parser/serializer.cpp: `MessageBuilder`.
pub mod Render
pub mod Fields
pub mod Sizes
pub mod RoundTrip
pub mod Delivery
pub mod Batch
pub mod EndToEnd
use fix_protocol.Prelude.{
  ℕ, Bool, true, false, ◌||◌, Option, none, some, List, [], ◌∷◌, ◌++◌, Bytes, codes, ◌==◌,
  if◌then◌else◌, length, ℤ, to_int64,
}
use fix_protocol.Prelude.Decimal.{to_decimal, int_to_decimal, three_digits}
use fix_protocol.Core.Types.{ErrorCode, invalid_field, Result, ok, err}
use fix_protocol.Core.Message.{Field, Message, soh, has_invalid_wire_chars, msg_type, flag_text}
use fix_protocol.Core.Tags
use fix_protocol.Parser.Field.{compute_checksum}

pub record Builder : Type 0 where
  pub begin_string : Bytes
  pub body : Bytes
  pub last_error : Option ErrorCode

abbrev pub new_builder : Builder
new_builder = record { begin_string = []; body = []; last_error = none }

-- A call changes the builder and has a result.
abbrev pub Call {ℓ} : Type ℓ → Type ℓ
Call A = Builder → Builder × Result A

abbrev pub Done : Type 0
Done = Unit {0}

abbrev pub handed {ℓ κ} :
    {A : Type ℓ} {B : Type κ} → Builder × Result A → (A → Call B) → Builder × Result B
handed (b, ok a) f = f a b
handed (b, err e) f = (b, err e)

-- The early return of `if (auto r = ...; !r) return std::unexpected(r.error())`.
infixl 5 ◌>>=◌ ◌>>◌
abbrev pub ◌>>=◌ {ℓ κ} : {A : Type ℓ} {B : Type κ} → Call A → (A → Call B) → Call B
◌>>=◌ m f b = handed (m b) f

abbrev pub ◌>>◌ {ℓ κ} : {A : Type ℓ} {B : Type κ} → Call A → Call B → Call B
m >> k = m >>= λ _. k

abbrev pub return {ℓ} : {A : Type ℓ} → A → Call A
return a b = (b, ok a)

unfoldable pub fail : ErrorCode → Call Done
fail e b = (record b { last_error = some e }, err e)

-- `Tag=Value<SOH>`.
unfoldable pub field_bytes : ℕ → Bytes → Bytes
field_bytes tag value = to_decimal tag ++ (b'=' ∷ (value ++ soh ∷ []))

abbrev if_no_error : Option ErrorCode → Call Done → Call Done
if_no_error none k b = k b
if_no_error (some e) k b = (b, err e)

-- `append_field`, and `add` of a text.
unfoldable pub add : ℕ → Bytes → Call Done
unfolding fail field_bytes
add tag value b =
    if_no_error b.last_error
      (if has_invalid_wire_chars value then fail invalid_field else λ c.
        (record c { body = c.body ++ field_bytes tag value }, ok tt))
      b

unfoldable pub add_int : ℕ → ℤ → Call Done
unfolding add
add_int tag value = add tag (int_to_decimal value)

unfoldable pub add_bool : ℕ → Bool → Call Done
unfolding add
add_bool tag value = add tag (flag_text value)

unfoldable pub begin : Bytes → Bytes → Call Done
unfolding add
begin begin_string mt b =
    if has_invalid_wire_chars begin_string || has_invalid_wire_chars mt
    then (
      record { begin_string = []; body = []; last_error = some invalid_field },
      err invalid_field,
    )
    else add Tags.msg_type mt (record { begin_string = begin_string; body = []; last_error = none })

-- What the checksum is computed over: the two header fields and the body.
unfoldable pub unsigned_frame : Bytes → Bytes → Bytes
unsigned_frame begin_string body =
    codes "8="
    ++ (begin_string ++ (soh ∷ (codes "9=" ++ (to_decimal (length body) ++ (soh ∷ body)))))

unfoldable pub build : Bytes → Bytes → Bytes
unfolding unsigned_frame
build begin_string body =
    let pre = unsigned_frame begin_string body in
    pre ++ (codes "10=" ++ (three_digits (compute_checksum pre) ++ soh ∷ []))

unfoldable pub finish : Builder → Bytes
unfolding build
finish b = elim b.last_error [ none ↦ build b.begin_string b.body | some _ ↦ [] ]

-- The lambda `field_of`: the first field with the tag.
unfoldable pub field_of : List Field → ℕ → Option Field
field_of [] tag = none
field_of (f ∷ fs) tag = if f.tag == tag then some f else field_of fs tag

-- `if (const Field *f = field_of(tag)) add(tag, f->value)`.
unfoldable pub add_if_present : ℕ → Option Field → Call Done
unfolding add
add_if_present tag none = return tt
add_if_present tag (some f) = add tag f.value

-- The tags that the body loop passes over.
unfoldable pub is_skipped : ℕ → Bool
is_skipped tag =
    tag == Tags.begin_string
    || tag == Tags.body_length
    || tag == Tags.msg_type
    || tag == Tags.sender_comp_id
    || tag == Tags.target_comp_id
    || tag == Tags.msg_seq_num
    || tag == Tags.poss_dup_flag
    || tag == Tags.orig_sending_time
    || tag == Tags.sending_time
    || tag == Tags.check_sum

unfoldable pub add_fields : List Field → Call Done
unfolding add is_skipped
add_fields [] = return tt
add_fields (f ∷ fs) =
    let rest = add_fields fs in if is_skipped f.tag then rest else (add f.tag f.value >> rest)

-- What `serialize` and `try_serialize` are given besides the message.
pub record Envelope : Type 0 where
  pub version : Bytes
  pub seq_num : ℕ
  pub sender : Bytes
  pub target : Bytes
  pub sending_time : Bytes

unfoldable pub build_frame : Call Bytes
build_frame b = elim b.last_error [
  | none ↦ (b, ok (build b.begin_string b.body))
  | some e ↦ (b, err e)
]

-- What `try_serialize` adds behind the MsgType.
unfoldable pub emit_fields : Message → Envelope → Call Done
emit_fields m e = do
  add Tags.sender_comp_id e.sender
  add Tags.target_comp_id e.target
  add_int Tags.msg_seq_num (to_int64 e.seq_num)
  add_if_present Tags.poss_dup_flag (field_of m.fields Tags.poss_dup_flag)
  add_if_present Tags.orig_sending_time (field_of m.fields Tags.orig_sending_time)
  add Tags.sending_time e.sending_time
  add_fields m.fields

unfoldable pub try_serialize : Message → Envelope → Call Bytes
try_serialize m e = do begin e.version (msg_type m); emit_fields m e; build_frame

abbrev or_empty : Builder × Result Bytes → Builder × Bytes
or_empty (b, ok wire) = (b, wire)
or_empty (b, err _) = (b, [])

unfoldable pub serialize : Message → Envelope → Builder → Builder × Bytes
unfolding try_serialize
serialize m e b = or_empty (try_serialize m e b)
