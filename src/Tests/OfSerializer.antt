-- ===== src/Tests/OfSerializer.antt =====
-- src/parser/serializer.cpp: the theorems of the serializer at concrete inputs.
use fix_protocol.Prelude.{
  ℕ, ◌^◌, ◌<◌, ◌≡◌, refl, false, ◌||◌, inr, List, [], ◌∷◌, ◌++◌, Bytes, codes, arith, length,
  if◌then◌else◌, All,
}
use fix_protocol.Prelude.Decimal.{to_decimal, three_digits, int_to_decimal}
use fix_protocol.Core.Types.{ok, err, invalid_field}
use fix_protocol.Core.Message.{Field, Message, has_invalid_wire_chars, msg_type}
use fix_protocol.Parser.Field.{compute_checksum}
use fix_protocol.Parser.Frame.{default_options, parse_frame, accept, next, finish_message}
use fix_protocol.Parser.Stream.{StreamParser, init, feed}
use fix_protocol.Serializer.{
  new_builder, field_bytes, add, add_int, begin, unsigned_frame, build, field_of, add_if_present,
  is_skipped, add_fields, Envelope, build_frame, emit_fields, try_serialize, serialize,
}
use fix_protocol.Serializer.Fields.{IsSendable, collect}
use fix_protocol.Serializer.Render.{field, emitted, render, dirty, try_serialize-emitted}
use fix_protocol.Serializer.RoundTrip.{seeded, parse_frame-build}
use fix_protocol.Serializer.Delivery.{Frame, wire, wires, IsDeliverable, Delivered}
use fix_protocol.Serializer.Batch.{feed-wires}
use fix_protocol.Serializer.EndToEnd.{frame_of, try_serialize-feed}

abbrev order : Message
order = record {
  fields = field 35 (codes "D") ∷ field 11 (codes "id") ∷ field 43 (codes "Y") ∷ [];
  raw = [];
  duplicate_header = false;
}

abbrev envelope : Envelope
envelope = record {
  version = codes "FIX.4.2";
  seq_num = 7;
  sender = codes "A";
  target = codes "B";
  sending_time = codes "20240101-00:00:00.000";
}

-- A heartbeat whose sender is given twice.
abbrev heartbeat : List Field
heartbeat =
    field 35 (codes "0") ∷ field 49 (codes "A") ∷ field 49 (codes "C") ∷ field 112 (codes "x") ∷ []

sendable :
    (tag : ℕ) (v : Bytes)
    → tag < 2 ^ 32
    → (tag ≡ 10 → ⊥)
    → has_invalid_wire_chars v ≡ false
    → IsSendable (field tag v)
sendable tag v fits other clean = record { tag_fits = fits; not_trailer = other; clean = clean }

heartbeat-IsSendable : All IsSendable heartbeat
unfolding has_invalid_wire_chars
heartbeat-IsSendable = (
  sendable 35 (codes "0") (omega arith) (λ e. omega arith) refl,
  (
    sendable 49 (codes "A") (omega arith) (λ e. omega arith) refl,
    (
      sendable 49 (codes "C") (omega arith) (λ e. omega arith) refl,
      (sendable 112 (codes "x") (omega arith) (λ e. omega arith) refl, tt),
    ),
  ),
)

abbrev heartbeat_frame : Frame
heartbeat_frame = record { version = codes "FIX.4.2"; fields = heartbeat }

-- What running the serializer on concrete fields opens.
runs : Unit {0}
unfolding field_bytes to_decimal int_to_decimal three_digits compute_checksum unsigned_frame build
    render has_invalid_wire_chars wire wires
runs = tt

length-heartbeat : length (build (codes "FIX.4.2") (render heartbeat)) ≡ 43
unfolding runs
length-heartbeat = refl

clean_version : has_invalid_wire_chars (codes "FIX.4.2") ≡ false
unfolding has_invalid_wire_chars
clean_version = refl

parse_frame-build_example :
    let bs = codes "FIX.4.2" in
    let base = build bs (render heartbeat) ++ codes "8=" in
    parse_frame default_options 0 base
    ≡ next (
        accept (length (build bs (render heartbeat))) (
          finish_message base
            (length (build bs (render heartbeat)))
            (collect (seeded bs (length (render heartbeat))) heartbeat)))
parse_frame-build_example =
    parse_frame-build default_options 0 (codes "FIX.4.2") (codes "8=") heartbeat clean_version
      (omega arith) heartbeat-IsSendable (inr (omega (arith, length-heartbeat)))
      (omega (arith, length-heartbeat))

heartbeat-IsDeliverable : IsDeliverable default_options heartbeat_frame
unfolding wire
heartbeat-IsDeliverable = record {
  clean = clean_version;
  short = omega arith;
  sendable = heartbeat-IsSendable;
  within = inr (omega (arith, length-heartbeat));
  sized = omega (arith, length-heartbeat);
  not_tiny = omega (arith, length-heartbeat);
}

abbrev two : List Frame
two = heartbeat_frame ∷ heartbeat_frame ∷ []

abbrev idle : StreamParser
idle = init default_options

abbrev loaded : StreamParser
loaded = record idle { buf = wires two }

length-two : length (wires two) ≡ 86
unfolding runs
length-two = refl

feed-wires_example : Delivered idle two (feed idle (wires two))
unfolding init
feed-wires_example =
    feed-wires idle two refl refl (heartbeat-IsDeliverable, (heartbeat-IsDeliverable, tt))
      (omega (arith, length-two), inr (omega (arith, length-two)))

try_serialize-emitted_example : (try_serialize order envelope new_builder).1 ≡ (
    if has_invalid_wire_chars envelope.version || dirty (emitted order envelope)
    then err invalid_field
    else ok (build envelope.version (render (emitted order envelope))))
try_serialize-emitted_example = try_serialize-emitted order envelope new_builder

-- The frame that is sent for the order.
abbrev order_frame : Bytes
order_frame = (serialize order envelope new_builder).1

-- What serializing a concrete message opens.
serializes : Unit {0}
unfolding field_bytes to_decimal int_to_decimal three_digits compute_checksum unsigned_frame build
    has_invalid_wire_chars add add_int begin field_of add_if_present is_skipped add_fields
    build_frame emit_fields try_serialize serialize msg_type
serializes = tt

order_serialized : (try_serialize order envelope new_builder).1 ≡ ok order_frame
unfolding serializes
order_serialized = refl

length-order_frame : length order_frame ≡ 78
unfolding serializes
length-order_frame = refl

try_serialize-feed_example : Delivered idle (frame_of order envelope ∷ []) (feed idle order_frame)
unfolding init
try_serialize-feed_example =
    try_serialize-feed idle order envelope new_builder order_frame order_serialized
      (omega arith, (omega arith, (omega arith, tt))) (omega arith) refl refl
      (inr (omega (arith, length-order_frame)))
      (omega (arith, length-order_frame), inr (omega (arith, length-order_frame)))
      (omega (arith, length-order_frame))
