-- ===== src/Serializer/Sizes.antt =====
-- The frame that `build` makes, as fields, and its length.
use fix_protocol.Prelude.{
  ◌+◌, ◌^◌, ◌≤◌, ◌<◌, ◌≡◌, refl, ◌++◌, Bytes, codes, arith, length, length-append, ◌∙◌, ap,
}
use fix_protocol.Prelude.Decimal.{to_decimal, three_digits, to_decimal-length}
use fix_protocol.Core.Tags
use fix_protocol.Parser.Field.{compute_checksum}
use fix_protocol.Serializer.{field_bytes, unsigned_frame, build}
use fix_protocol.Serializer.Fields.{field_bytes-append, length-field_bytes}

abbrev pub trailer : Bytes → Bytes
trailer pre = field_bytes Tags.check_sum (three_digits (compute_checksum pre))

pub length-trailer : (pre : Bytes) → length (trailer pre) ≡ 7
unfolding field_bytes to_decimal three_digits
length-trailer pre = refl

unfoldable pub begin_bytes : Bytes → Bytes
begin_bytes bs = field_bytes Tags.begin_string bs

unfoldable pub length_bytes : Bytes → Bytes
length_bytes body = field_bytes Tags.body_length (to_decimal (length body))

pub header_tags_decimal :
    (to_decimal 8 ≡ codes "8") × (to_decimal 9 ≡ codes "9") × (to_decimal 10 ≡ codes "10")
unfolding to_decimal
header_tags_decimal = (refl, refl, refl)

-- What the checksum covers is two fields and the body; the frame adds a third field.
pub unsigned_frame-fields :
    (bs body : Bytes) → unsigned_frame bs body ≡ begin_bytes bs ++ (length_bytes body ++ body)
unfolding unsigned_frame begin_bytes length_bytes
unsigned_frame-fields bs body = rw (
  field_bytes-append Tags.begin_string bs,
  field_bytes-append Tags.body_length (to_decimal (length body)) body,
  header_tags_decimal.0,
  header_tags_decimal.1,
)

pub build-fields :
    (bs body : Bytes) → build bs body ≡ unsigned_frame bs body ++ trailer (unsigned_frame bs body)
unfolding build field_bytes
build-fields bs body = rw header_tags_decimal.2

pub length-unsigned_frame :
    (bs body : Bytes)
    → length (unsigned_frame bs body)
      ≡ length (begin_bytes bs) + length (length_bytes body) + length body
length-unsigned_frame bs body =
    ap length (unsigned_frame-fields bs body)
    ∙ omega (
      arith,
      length-append (begin_bytes bs) (length_bytes body ++ body),
      length-append (length_bytes body) body,
    )

pub length-build : (bs body : Bytes) → length (build bs body) ≡ length (unsigned_frame bs body) + 7
length-build bs body =
    ap length (build-fields bs body)
    ∙ omega (
      arith,
      length-append (unsigned_frame bs body) (trailer (unsigned_frame bs body)),
      length-trailer (unsigned_frame bs body),
    )

pub length-begin_bytes : (bs : Bytes) → length (begin_bytes bs) ≡ length bs + 3
unfolding begin_bytes
length-begin_bytes bs =
    length-field_bytes Tags.begin_string bs ∙ rw header_tags_decimal.0 (omega arith)

pub length-length_bytes : (body : Bytes) → length body < 10 ^ 20 → length (length_bytes body) ≤ 23
unfolding length_bytes
length-length_bytes body h = omega (
  arith,
  length-field_bytes Tags.body_length (to_decimal (length body)),
  to_decimal-length 19 (length body) h,
  ap length header_tags_decimal.1,
)

pub length-length_bytes_ge : (body : Bytes) → 2 ≤ length (length_bytes body)
unfolding length_bytes
length-length_bytes_ge body =
    omega (arith, length-field_bytes Tags.body_length (to_decimal (length body)))
