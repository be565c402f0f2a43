-- ===== src/Parser/Frame.antt =====
-- src/parser/parser.cpp: what `try_parse_one` decides about the bytes at the read position. Its
-- early returns are the verdicts; `Stream` applies a verdict to the parser's state.
pub mod Bounds
use fix_protocol.Prelude.{
  ℕ, zero, suc, ◌+◌, ◌-◌, ◌^◌, Bool, true, false, not, ◌&&◌, ◌||◌, Option, none, some, List, [],
  ◌∷◌, ◌++◌, Bytes, ◌==◌, leb, ltb, if◌then◌else◌, length, take, drop, to_int64, min,
}
use fix_protocol.Prelude.Decimal.{from_chars, whole}
use fix_protocol.Core.Types.{ErrorCode, parse_error, invalid_field, bad_checksum, bad_length}
use fix_protocol.Core.Types
use fix_protocol.Core.Message.{Message, mark_duplicate_header, set_raw}
use fix_protocol.Core.Message as Message
use fix_protocol.Core.Tags
use fix_protocol.Parser.Field.{
  FieldStatus, incomplete, invalid, parse_field, size_limit, compute_checksum, parse_checksum,
  is_standard_header_tag, Mark, present, marked, aborted, check_and_mark,
}

-- `StreamParserOptions`.
pub record Options : Type 0 where
  pub validate_checksum : Bool
  pub validate_body_len : Bool
  pub max_msg_len : ℕ

abbrev pub default_options : Options
default_options = record {
  validate_checksum = true;
  validate_body_len = true;
  max_msg_len = 2 ^ 20;
}

abbrev pub min_msg_len : ℕ
min_msg_len = 20

abbrev pub trailer_bytes : ℕ
trailer_bytes = 7

abbrev pub max_header_scan : ℕ
max_header_scan = 64

-- How one call of `try_parse_one` ends, past the frame synchronisation: more bytes are needed; so
-- too, with `BadLength` latched (an oversized frame that could still be buffered whole); `n` bytes
-- are skipped for a reason; a message of `n` bytes is delivered; or the process aborts.
pub data Verdict : Type 0 where
  wait : Verdict
  wait_oversized : Verdict
  skip : ℕ → ErrorCode → Verdict
  accept : ℕ → Message → Verdict
  abort : Verdict

-- A block of the function returns a verdict or goes on with a value.
pub data Outcome {ℓ} (A : Type ℓ) : Type ℓ where
  stop : Verdict → Outcome A
  next : A → Outcome A

infixl 5 ◌>>=◌
abbrev pub ◌>>=◌ {ℓ κ} : {A : Type ℓ} {B : Type κ} → Outcome A → (A → Outcome B) → Outcome B
stop v >>= f = stop v
next a >>= f = f a

abbrev pub verdict : Outcome Verdict → Verdict
verdict (stop v) = v
verdict (next v) = v

-- Blocks 2 and 3: a header field at `pos`, with `expected` as its tag, in the next 64 bytes. What
-- is skipped on an error, and the error of a wrong field, differ.
abbrev header_status : ℕ → ℕ → ℕ → ErrorCode → ℕ → FieldStatus → Outcome (Bytes × ℕ)
header_status avail pos skipped wrong expected incomplete =
    if ltb (avail - pos) max_header_scan then stop wait else stop (skip skipped parse_error)
header_status avail pos skipped wrong expected invalid = stop (skip skipped wrong)
header_status avail pos skipped wrong expected (FieldStatus.ok tag value len) =
    if tag == expected then next (value, pos + len) else stop (skip skipped wrong)

unfoldable pub header_field : Bytes → ℕ → ℕ → ErrorCode → ℕ → Outcome (Bytes × ℕ)
header_field base pos skipped wrong expected =
    header_status (length base) pos skipped wrong expected
      (parse_field (take max_header_scan (drop pos base)))

abbrev or_bad_length : ℕ → Option ℕ → Outcome ℕ
or_bad_length pos none = stop (skip pos bad_length)
or_bad_length pos (some n) = next n

-- Block 4, first half: the value of BodyLength, all of it digits, as a `std::size_t`.
unfoldable pub body_length_value : Bytes → ℕ → Outcome ℕ
body_length_value value pos = or_bad_length pos (whole (from_chars size_limit value))

abbrev pub frame_end_ok : ℕ → ℕ → Bool
frame_end_ok body_start body_length = leb body_length (size_limit - 1 - (body_start + 7))

abbrev pub frame_end : ℕ → ℕ → ℕ
frame_end body_start body_length =
    if frame_end_ok body_start body_length then body_start + body_length + 7 else size_limit - 1

abbrev pub oversized : Options → ℕ → ℕ → Bool
oversized opts body_start body_length =
    not (frame_end_ok body_start body_length)
    || (ltb 0 opts.max_msg_len
        && (ltb opts.max_msg_len (body_start + 7)
            || ltb (opts.max_msg_len - (body_start + 7)) body_length))

-- Block 4, second half, and block 5: an oversized frame is waited for or skipped, any other is
-- waited for until it is buffered whole. The end of the body is the value.
unfoldable pub frame_bounds : Options → ℕ → ℕ → ℕ → ℕ → Outcome ℕ
frame_bounds opts cap avail body_start body_length =
    let fin = frame_end body_start body_length in
    if oversized opts body_start body_length
    then (if leb fin cap && ltb avail fin
        then stop wait_oversized
        else if leb fin avail && leb body_start fin
        then stop (skip fin bad_length)
        else stop (skip body_start bad_length))
    else if ltb avail fin
    then stop wait
    else next (body_start + body_length)

-- What the body loop carries: the message so far, the header tags seen, and `duplicate_header`.
-- (Its writes to `last_error_` are overwritten on every way out.)
pub record Body : Type 0 where
  pub msg : Message
  pub seen : List ℕ
  pub duplicate : Bool

abbrev added : Body → List ℕ → ℕ → Message × Types.Result (Unit {0}) → Outcome Body
added b seen pos (msg, Types.ok _) = next (record b { msg = msg; seen = seen })
added b seen pos (msg, Types.err _) = stop (skip pos invalid_field)

abbrev body_mark : Body → ℕ → ℕ → Bytes → Mark → Outcome Body
body_mark b pos tag value present = next (record b { duplicate = true })
body_mark b pos tag value (marked seen) = added b seen pos (Message.add b.msg tag value)
body_mark b pos tag value aborted = stop abort

-- The body of the loop, on one parsed field at `pos`.
unfoldable pub body_field : Body → ℕ → ℕ → Bytes → Outcome Body
unfolding Message.add
body_field b pos tag value =
    if tag == Tags.check_sum
    then stop (skip pos parse_error)
    else if is_standard_header_tag tag
    then body_mark b pos tag value (check_and_mark b.seen tag)
    else added b b.seen pos (Message.add b.msg tag value)

abbrev pub body_status : Body → ℕ → ℕ → FieldStatus → Outcome (Body × ℕ)
body_status b pos body_end incomplete = stop (skip body_end bad_length)
body_status b pos body_end invalid = stop (skip pos invalid_field)
body_status b pos body_end (FieldStatus.ok tag value len) = do
  b' ← body_field b pos tag value
  next (b', len)

-- Block 6, on the bytes from `pos` to `body_end`. Every round takes a byte at least, so as many
-- rounds as there are bytes are enough fuel.
unfoldable pub parse_body : ℕ → Body → ℕ → ℕ → Bytes → Outcome Body
parse_body fuel b pos body_end [] = next b
parse_body zero b pos body_end (c ∷ cs) = stop (skip body_end bad_length)
parse_body (suc fuel) b pos body_end (c ∷ cs) = do
  (b', len) ← body_status b pos body_end (parse_field (c ∷ cs))
  parse_body fuel b' (pos + len) body_end (drop len (c ∷ cs))

abbrev provided_checksum : ℕ → Option ℕ → Outcome ℕ
provided_checksum body_end none = stop (skip body_end bad_checksum)
provided_checksum body_end (some n) = next n

-- Block 7: the field behind the body is a CheckSum of three digits that ends the frame. The test of
-- `validate_body_len` compares two lengths that are equal by construction, and never fires.
abbrev trailer_status : Options → Bytes → ℕ → ℕ → ℕ → FieldStatus → Outcome ℕ
trailer_status opts base body_start body_length body_end incomplete =
    stop (skip body_end parse_error)
trailer_status opts base body_start body_length body_end invalid = stop (skip body_end parse_error)
trailer_status opts base body_start body_length body_end (FieldStatus.ok tag value len) =
    if not (tag == Tags.check_sum) then stop (skip body_end parse_error) else do
      provided ← provided_checksum body_end (parse_checksum value)
      if not (len == trailer_bytes)
          then stop (skip body_end parse_error)
          else if opts.validate_checksum && not (compute_checksum (take body_end base) == provided)
          then stop (skip (body_end + len) bad_checksum)
          else if opts.validate_body_len && not (body_end - body_start == body_length)
          then stop (skip (body_end + len) bad_length)
          else next (body_end + len)

unfoldable pub check_trailer : Options → Bytes → ℕ → ℕ → ℕ → Outcome ℕ
check_trailer opts base body_start body_length body_end =
    trailer_status opts base body_start body_length body_end
      (parse_field (take trailer_bytes (drop body_end base)))

abbrev or_invalid : ℕ → Message × Types.Result (Unit {0}) → Outcome Message
or_invalid pos (m, Types.ok _) = next m
or_invalid pos (m, Types.err _) = stop (skip pos invalid_field)

-- The message seeded with the two header fields. Their tags are the first two that are seen.
unfoldable pub seed : Bytes → ℕ → ℕ → Outcome Body
unfolding Message.add Message.add_int
seed begin_value body_length pos = do
  m ← or_invalid pos (Message.add Message.empty Tags.begin_string begin_value)
  m' ← or_invalid pos (Message.add_int m Tags.body_length (to_int64 body_length))
  next (record { msg = m'; seen = Tags.begin_string ∷ Tags.body_length ∷ []; duplicate = false })

-- Block 8: the raw bytes are kept, and a duplicate header field flags the message.
unfoldable pub finish_message : Bytes → ℕ → Body → Message
unfolding set_raw mark_duplicate_header
finish_message base n b =
    let m = set_raw b.msg (take n base) in if b.duplicate then mark_duplicate_header m else m

-- Blocks 2 to 8, for bytes that begin with `8=` and are at least `min_msg_len` many.
unfoldable pub parse_frame : Options → ℕ → Bytes → Outcome Verdict
parse_frame opts cap base = do
  (begin_value, pos) ← header_field base 0 1 invalid_field Tags.begin_string
  (length_value, body_start) ← header_field base pos pos bad_length Tags.body_length
  body_length ← body_length_value length_value body_start
  body_end ← frame_bounds opts cap (length base) body_start body_length
  seeded ← seed begin_value body_length body_start
  parsed ←
      parse_body body_length seeded body_start body_end (take body_length (drop body_start base))
  frame_len ← check_trailer opts base body_start body_length body_end
  next (accept frame_len (finish_message base frame_len parsed))
