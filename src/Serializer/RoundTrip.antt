-- ===== src/Serializer/RoundTrip.antt =====
-- What `MessageBuilder` writes, `StreamParser` reads back.
use fix_protocol.Prelude.{
  ℕ, ◌+◌, ◌-◌, ◌^◌, ◌≤◌, ◌<◌, ◌≡◌, refl, false, List, [], ◌∷◌, ◌++◌, Bytes, arith, length,
  length-append, take, drop, drop_append, take_append, take-append_ge, All, append_assoc,
  append-nil, ◌∙◌, ap, sym, subst, drop-drop, ◌⊎◌,
}
use fix_protocol.Prelude.Decimal.{
  to_decimal, int_to_decimal, three_digits, from_chars-to_decimal, IsDigit, to_decimal-IsDigit,
}
use fix_protocol.Core.Types.{ErrorCode, invalid_field, bad_length}
use fix_protocol.Core.Message.{Field, has_invalid_wire_chars}
use fix_protocol.Core.Tags
use fix_protocol.Parser.Field.HeaderTags.{seed_IsSeen}
use fix_protocol.Parser.Field.Span.{parse_checksum-three_digits}
use fix_protocol.Parser.Field.{ok, parse_field, compute_checksum, tag_limit}
use fix_protocol.Parser.Frame.{
  Options, accept, next, header_field, body_length_value, frame_bounds, Body, seed, check_trailer,
  finish_message, parse_frame, max_header_scan,
}
use fix_protocol.Serializer.{field_bytes, unsigned_frame, build}
use fix_protocol.Serializer.Fields.{IsSendable, collect, parse_field-field_bytes, parse_body-render}
use fix_protocol.Serializer.Render.{field, render}
use fix_protocol.Serializer.Sizes.{
  trailer, length-trailer, begin_bytes, length_bytes, unsigned_frame-fields, build-fields,
  length-unsigned_frame, length-build, length-begin_bytes, length-length_bytes,
}

header_field-field_bytes :
    (base : Bytes) (pos skipped : ℕ) (wrong : ErrorCode) (tag : ℕ) (v rest : Bytes)
    → drop pos base ≡ field_bytes tag v ++ rest
    → tag < tag_limit
    → has_invalid_wire_chars v ≡ false
    → length (field_bytes tag v) ≤ max_header_scan
    → header_field base pos skipped wrong tag ≡ next (v, pos + length (field_bytes tag v))
unfolding header_field
header_field-field_bytes base pos skipped wrong tag v rest e h c short =
    rw
      (
        e,
        take-append_ge max_header_scan (field_bytes tag v) rest short,
        parse_field-field_bytes tag v (take (max_header_scan - length (field_bytes tag v)) rest) h
            c,
      )
      (ground arith)

digits-clean : (s : Bytes) → All IsDigit s → has_invalid_wire_chars s ≡ false
unfolding has_invalid_wire_chars
digits-clean [] h = refl
digits-clean (c ∷ s) h = ground (arith, digits-clean s h.1)

pub to_decimal-clean : (n : ℕ) → has_invalid_wire_chars (to_decimal n) ≡ false
to_decimal-clean n = digits-clean (to_decimal n) (to_decimal-IsDigit n)

abbrev pub seeded : Bytes → ℕ → Body
seeded bs n = record {
  msg = record {
    fields = field Tags.begin_string bs ∷ field Tags.body_length (to_decimal n) ∷ [];
    raw = [];
    duplicate_header = false;
  };
  seen = 8 ∷ 9 ∷ [];
  duplicate = false;
}

seed-seeded :
    (bs : Bytes) (n pos : ℕ)
    → has_invalid_wire_chars bs ≡ false
    → n < 2 ^ 63
    → seed bs n pos ≡ next (seeded bs n)
unfolding seed int_to_decimal
seed-seeded bs n pos h lt = ground (arith, to_decimal-clean n)

body_length_value-to_decimal :
    (n pos : ℕ) → n < 2 ^ 63 → body_length_value (to_decimal n) pos ≡ next n
unfolding body_length_value
body_length_value-to_decimal n pos h = rw (from_chars-to_decimal (2 ^ 64) n (omega arith))

-- The frame of `body` fits the parser's limit.
abbrev pub IsWithin : Options → ℕ → Type 0
IsWithin opts n = (opts.max_msg_len ≡ 0) ⊎ (n ≤ opts.max_msg_len)

frame_bounds-within :
    (opts : Options) (cap avail start n : ℕ)
    → IsWithin opts (start + n + 7)
    → start + n + 7 ≤ avail
    → start + n + 7 < 2 ^ 63
    → frame_bounds opts cap avail start n ≡ next (start + n)
unfolding frame_bounds
frame_bounds-within opts cap avail start n w a s = ground arith

compute_checksum-lt : (s : Bytes) → compute_checksum s < 256
unfolding compute_checksum
compute_checksum-lt s = omega arith

three_digits-clean : (n : ℕ) → has_invalid_wire_chars (three_digits n) ≡ false
unfolding has_invalid_wire_chars three_digits
three_digits-clean n = ground arith

trailer_parsed :
    (pre : Bytes)
    → parse_field (trailer pre) ≡ ok Tags.check_sum (three_digits (compute_checksum pre)) 7
trailer_parsed pre =
    ap parse_field (sym (append-nil (trailer pre)))
    ∙ parse_field-field_bytes Tags.check_sum (three_digits (compute_checksum pre)) [] (omega arith)
        (three_digits-clean (compute_checksum pre))
    ∙ ap (ok Tags.check_sum (three_digits (compute_checksum pre))) (length-trailer pre)

check_trailer-trailer :
    (opts : Options) (pre rest : Bytes) (start n fin : ℕ)
    → fin ≡ length pre
    → fin ≡ start + n
    → check_trailer opts (pre ++ (trailer pre ++ rest)) start n fin ≡ next (fin + 7)
unfolding check_trailer
check_trailer-trailer opts pre rest start n fin e f =
    rw
      (
        drop_append fin pre (trailer pre ++ rest) e,
        take_append 7 (trailer pre) rest (sym (length-trailer pre)),
        trailer_parsed pre,
        parse_checksum-three_digits (compute_checksum pre) (compute_checksum-lt pre),
        take_append fin pre (trailer pre ++ rest) e,
      )
      (ground arith)

module _ (opts : Options) (cap : ℕ) (bs rest : Bytes) (fs : List Field)
    (clean : has_invalid_wire_chars bs ≡ false) (short : length bs ≤ 61)
    (sendable : All IsSendable fs) (within : IsWithin opts (length (build bs (render fs))))
    (sized : length (build bs (render fs)) < 2 ^ 63) where
  abbrev body : Bytes
  body = render fs

  abbrev base : Bytes
  base = build bs body ++ rest

  abbrev start : ℕ
  start = 0 + length (begin_bytes bs) + length (length_bytes body)

  sizes : length (build bs body) ≡ start + length body + 7
  sizes = omega (arith, length-build bs body, length-unsigned_frame bs body)

  base-trailer : base ≡ unsigned_frame bs body ++ (trailer (unsigned_frame bs body) ++ rest)
  base-trailer =
      ap (λ t. t ++ rest) (build-fields bs body)
      ∙ append_assoc (unsigned_frame bs body) (trailer (unsigned_frame bs body)) rest

  after : Bytes
  after = body ++ (trailer (unsigned_frame bs body) ++ rest)

  base-fields : base ≡ begin_bytes bs ++ (length_bytes body ++ after)
  unfolding after
  base-fields =
      base-trailer
      ∙ rw (unsigned_frame-fields bs body, append_assoc)
          (ap (λ t. begin_bytes bs ++ t) (append_assoc (length_bytes body) body _))

  begin_read :
      header_field base 0 1 invalid_field Tags.begin_string ≡ next (bs, 0 + length (begin_bytes bs))
  unfolding begin_bytes
  begin_read =
      header_field-field_bytes base 0 1 invalid_field Tags.begin_string bs
        (length_bytes body ++ after) base-fields (omega arith) clean
        (omega (arith, length-begin_bytes bs))

  after_begin : drop (0 + length (begin_bytes bs)) base ≡ length_bytes body ++ after
  after_begin =
      ap (drop (0 + length (begin_bytes bs))) base-fields
      ∙ drop_append (0 + length (begin_bytes bs)) (begin_bytes bs) (length_bytes body ++ after)
          (omega arith)

  length_read :
      header_field base
        (0 + length (begin_bytes bs))
        (0 + length (begin_bytes bs))
        bad_length
        Tags.body_length
      ≡ next (to_decimal (length body), start)
  unfolding length_bytes
  length_read =
      header_field-field_bytes base (0 + length (begin_bytes bs)) (0 + length (begin_bytes bs))
        bad_length Tags.body_length (to_decimal (length body)) after after_begin (omega arith)
        (to_decimal-clean (length body))
        (omega (arith, length-length_bytes body (omega (arith, sizes))))

  body_read : take (length body) (drop start base) ≡ body
  unfolding after
  body_read =
      ap (take (length body)) (
        sym (drop-drop (0 + length (begin_bytes bs)) (length (length_bytes body)) base)
        ∙ ap (drop (length (length_bytes body))) after_begin
        ∙ drop_append (length (length_bytes body)) (length_bytes body) after refl)
      ∙ take_append (length body) body _ refl

  trailer_read :
      check_trailer opts base start (length body) (start + length body)
      ≡ next (start + length body + 7)
  trailer_read =
      ap (λ t. check_trailer opts t start (length body) (start + length body)) base-trailer
      ∙ check_trailer-trailer opts (unsigned_frame bs body) rest start (length body)
          (start + length body) (omega (arith, length-unsigned_frame bs body)) refl

  -- A frame that `build` made from fields that can stand on the wire is delivered whole, whatever
  -- bytes follow it, if its version has at most 61 bytes and its length is within the parser's
  -- limit and below 2^63: the message has the version, the body length and the fields, collected.
  pub parse_frame-build :
      parse_frame opts cap base
      ≡ next (
          accept
            (length (build bs body))
            (finish_message base (length (build bs body)) (collect (seeded bs (length body)) fs)))
  unfolding parse_frame
  parse_frame-build =
      rw
        (
          begin_read,
          length_read,
          body_length_value-to_decimal (length body) start (omega (arith, sizes)),
          frame_bounds-within opts cap (length base) start (length body)
              (subst (IsWithin opts) sizes within)
              (omega (arith, sizes, length-append (build bs body) rest)) (omega (arith, sizes)),
          seed-seeded bs (length body) start clean (omega (arith, sizes)),
          body_read,
          parse_body-render fs (length body) (seeded bs (length body)) start (start + length body)
              sendable seed_IsSeen (omega arith),
          trailer_read,
        )
        (ap (λ n. next (accept n (finish_message base n (collect (seeded bs (length body)) fs))))
          (sym sizes))
