-- ===== src/Serializer/EndToEnd.antt =====
-- From `try_serialize` through `feed`: what the other side's parser makes of a serialized message.
use fix_protocol.Prelude.{
  ℕ, ◌*◌, ◌^◌, ◌≤◌, ◌<◌, ◌≡◌, ◌≢◌, Bool, true, false, ◌||◌, Option, none, some, List, [], ◌∷◌, ◌++◌,
  Bytes, arith, if◌then◌else◌, length, length-append, All, All-append, sym, ◌∙◌, subst, append-nil,
}
use fix_protocol.Prelude.Decimal.{to_decimal}
use fix_protocol.Core.Types.{ok, err, ErrorCode, invalid_field}
use fix_protocol.Core.Message.{Field, Message, has_invalid_wire_chars}
use fix_protocol.Core.Tags
use fix_protocol.Parser.Field.{tag_limit}
use fix_protocol.Parser.Frame.{min_msg_len}
use fix_protocol.Parser.Stream.{StreamParser, base, feed}
use fix_protocol.Serializer.{Builder, field_bytes, field_of, is_skipped, Envelope, try_serialize}
use fix_protocol.Serializer.Fields.{IsSendable, length-field_bytes}
use fix_protocol.Serializer.Render.{
  field, optional, kept, emitted, render, dirty, try_serialize-emitted,
}
use fix_protocol.Serializer.RoundTrip.{IsWithin}
use fix_protocol.Serializer.Sizes.{
  length-build, length-unsigned_frame, length-begin_bytes, length-length_bytes_ge,
}
use fix_protocol.Serializer.Delivery.{Frame, wire, IsDeliverable, wires, Delivered}
use fix_protocol.Serializer.Batch.{HasRoom, feed-wires}

-- Tags are 32-bit numbers.
abbrev pub Fits32 : Field → Type 0
Fits32 f = f.tag < tag_limit

-- A tag that the wire can carry in a body.
abbrev Carried : Field → Type 0
Carried f = (f.tag < tag_limit) × (f.tag ≢ Tags.check_sum)

kept-Carried : (fs : List Field) → All Fits32 fs → All Carried (kept fs)
unfolding kept is_skipped
kept-Carried [] h = tt
kept-Carried (f ∷ fs) h = ground (arith, kept-Carried fs h.1)

optional-Carried :
    (tag : ℕ) (f : Option Field)
    → tag < tag_limit
    → tag ≢ Tags.check_sum
    → All Carried (optional tag f)
optional-Carried tag none h n = tt
optional-Carried tag (some f) h n = ((h, n), tt)

emitted-Carried : (m : Message) (e : Envelope) → All Fits32 m.fields → All Carried (emitted m e)
unfolding emitted
emitted-Carried m e h = (
  (omega arith, λ x. omega arith),
  (
    (omega arith, λ x. omega arith),
    (
      (omega arith, λ x. omega arith),
      (
        (omega arith, λ x. omega arith),
        All-append Carried _ _
            (optional-Carried Tags.poss_dup_flag (field_of m.fields Tags.poss_dup_flag)
              (omega arith) λ x. omega arith)
            (All-append Carried _ _
              (optional-Carried Tags.orig_sending_time (field_of m.fields Tags.orig_sending_time)
                (omega arith) λ x. omega arith)
              ((omega arith, λ x. omega arith), kept-Carried m.fields h)),
      ),
    ),
  ),
)

IsSendable-from : (fs : List Field) → All Carried fs → dirty fs ≡ false → All IsSendable fs
unfolding dirty
IsSendable-from [] c d = tt
IsSendable-from (f ∷ fs) c d = (
  record { tag_fits = c.0.0; not_trailer = c.0.1; clean = ground arith },
  IsSendable-from fs c.1 (ground arith),
)

-- The frame of a message.
unfoldable pub frame_of : Message → Envelope → Frame
frame_of m e = record { version = e.version; fields = emitted m e }

succeeded :
    (b c : Bool) (e : ErrorCode) (x y : Bytes)
    → (if b || c then err e else ok x) ≡ ok y
    → (b ≡ false) × (c ≡ false) × (y ≡ x)
succeeded b c e x y h = ground arith

serialized :
    (m : Message) (e : Envelope) (b : Builder) (w : Bytes)
    → (try_serialize m e b).1 ≡ ok w
    → (has_invalid_wire_chars e.version ≡ false)
      × (dirty (emitted m e) ≡ false)
      × (w ≡ wire (frame_of m e))
unfolding wire frame_of
serialized m e b w h =
    succeeded (has_invalid_wire_chars e.version) (dirty (emitted m e)) invalid_field _ w
      (sym (try_serialize-emitted m e b) ∙ h)

length-render : (fs : List Field) → 2 * length fs ≤ length (render fs)
unfolding render
length-render [] = omega arith
length-render (f ∷ fs) = omega (
  arith,
  length-render fs,
  length-append (field_bytes f.tag f.value) (render fs),
  length-field_bytes f.tag f.value,
)

length-emitted : (m : Message) (e : Envelope) → 5 ≤ length (emitted m e)
unfolding emitted
length-emitted m e =
    let dup = optional Tags.poss_dup_flag (field_of m.fields Tags.poss_dup_flag) in
    let orig = optional Tags.orig_sending_time (field_of m.fields Tags.orig_sending_time) in
    let rest = field Tags.sending_time e.sending_time ∷ kept m.fields in
    omega (arith, length-append dup (orig ++ rest), length-append orig rest)

wires_one : (f : Frame) → wire f ≡ wires (f ∷ [])
unfolding wires
wires_one f = sym (append-nil (wire f))

length-wire : (m : Message) (e : Envelope) → min_msg_len ≤ length (wire (frame_of m e))
unfolding wire frame_of
length-wire m e =
    let body = render (emitted m e) in
    omega (
      arith,
      length-build e.version body,
      length-unsigned_frame e.version body,
      length-begin_bytes e.version,
      length-field_bytes Tags.body_length (to_decimal (length body)),
      length-length_bytes_ge body,
      length-render (emitted m e),
      length-emitted m e,
    )

-- A message that `try_serialize` accepts, with 32-bit tags and a version of at most 61 bytes, is
-- delivered by a healthy parser with nothing buffered that is fed the frame, if the frame is within
-- the parser's limit, fits its buffer and is shorter than 2^63: the one message that becomes
-- pending has the emitted fields as the parser collects them, which keeps the first occurrence of a
-- standard header tag and flags a repeated one, and the parser is healthy with nothing buffered.
pub try_serialize-feed :
    (p : StreamParser) (m : Message) (e : Envelope) (b : Builder) (w : Bytes)
    → (try_serialize m e b).1 ≡ ok w
    → All Fits32 m.fields
    → length e.version ≤ 61
    → p.healthy ≡ true
    → base p ≡ []
    → IsWithin p.opts (length w)
    → HasRoom p (length w)
    → length w < 2 ^ 63
    → Delivered p (frame_of m e ∷ []) (feed p w)
unfolding frame_of
try_serialize-feed p m e b w h tags short well idle within room sized =
    let (clean, good, same) = serialized m e b w h in
    let whole : w ≡ wires (frame_of m e ∷ []) = same ∙ wires_one (frame_of m e) in
    let deliverable : IsDeliverable p.opts (frame_of m e) = record {
      clean = clean;
      short = short;
      sendable = IsSendable-from (emitted m e) (emitted-Carried m e tags) good;
      within = subst (λ t. IsWithin p.opts (length t)) same within;
      sized = subst (λ t. length t < 2 ^ 63) same sized;
      not_tiny = length-wire m e;
    } in
    subst (λ t. Delivered p (frame_of m e ∷ []) (feed p t)) (sym whole)
      (feed-wires p (frame_of m e ∷ []) well idle (deliverable, tt)
        (subst (λ t. HasRoom p (length t)) whole room))
