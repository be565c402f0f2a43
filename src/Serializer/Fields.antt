-- ===== src/Serializer/Fields.antt =====
-- The parser's body loop reads back the fields that a frame was rendered from.
use fix_protocol.Prelude.{
  ℕ, zero, suc, ◌+◌, ◌≤◌, ◌<◌, ◌≡◌, ◌≢◌, refl, true, false, ◌&&◌, List, [], ◌∷◌, ◌++◌, Bytes, arith,
  if◌then◌else◌, length, length-append, drop, drop_append, All, append_assoc, ◌∙◌, ap,
}
use fix_protocol.Prelude.Decimal.{to_decimal}
use fix_protocol.Core.Message.{Field, soh, has_invalid_wire_chars}
use fix_protocol.Core.Tags
use fix_protocol.Parser.Field.HeaderTags.{IsSeen, check_and_mark-Marks}
use fix_protocol.Parser.Field.Span.{parse_field_decimal}
use fix_protocol.Parser.Field.{ok, parse_field, tag_limit, contains, is_standard_header_tag}
use fix_protocol.Parser.Frame.{Outcome, next, ◌>>=◌, Body, body_field, body_status, parse_body}
use fix_protocol.Serializer.{field_bytes}
use fix_protocol.Serializer.Render.{render}

-- A field that the wire can carry in a body: a 32-bit tag, not that of the trailer, and a value
-- without NUL or SOH.
pub record IsSendable (f : Field) : Type 0 where
  pub tag_fits : f.tag < tag_limit
  pub not_trailer : f.tag ≢ Tags.check_sum
  pub clean : has_invalid_wire_chars f.value ≡ false

-- What a received field does to the message so far: a second occurrence of a standard-header tag
-- only flags it, and any other field is appended.
unfoldable pub absorb : Body → Field → Body
absorb b f =
    if is_standard_header_tag f.tag && contains b.seen f.tag
    then record b { duplicate = true }
    else record b {
      msg = record b.msg { fields = b.msg.fields ++ f ∷ [] };
      seen = if is_standard_header_tag f.tag then b.seen ++ f.tag ∷ [] else b.seen;
    }

unfoldable pub collect : Body → List Field → Body
unfolding absorb
collect b [] = b
collect b (f ∷ fs) = collect (absorb b f) fs

abbrev Absorbs : Body → Field → Outcome Body → Type 0
Absorbs b f o = (o ≡ next (absorb b f)) × IsSeen (absorb b f).seen

body_field-absorb :
    (b : Body) (pos : ℕ) (f : Field)
    → IsSendable f
    → IsSeen b.seen
    → Absorbs b f (body_field b pos f.tag f.value)
unfolding absorb body_field
body_field-absorb b pos f s h =
    ground (arith, s.not_trailer, s.clean, check_and_mark-Marks b.seen f.tag h)

pub field_bytes-append :
    (tag : ℕ) (v rest : Bytes)
    → field_bytes tag v ++ rest ≡ to_decimal tag ++ (b'=' ∷ (v ++ (soh ∷ rest)))
unfolding field_bytes
field_bytes-append tag v rest =
    append_assoc (to_decimal tag) (b'=' ∷ (v ++ soh ∷ [])) rest
    ∙ ap (λ t. to_decimal tag ++ (b'=' ∷ t)) (append_assoc v (soh ∷ []) rest)

pub length-field_bytes :
    (tag : ℕ) (v : Bytes) → length (field_bytes tag v) ≡ length (to_decimal tag) + 1 + length v + 1
unfolding field_bytes
length-field_bytes tag v =
    omega
      (arith, length-append (to_decimal tag) (b'=' ∷ (v ++ soh ∷ [])), length-append v (soh ∷ []))

-- One rendered field, whatever follows it.
pub parse_field-field_bytes :
    (tag : ℕ) (v rest : Bytes)
    → tag < tag_limit
    → has_invalid_wire_chars v ≡ false
    → parse_field (field_bytes tag v ++ rest) ≡ ok tag v (length (field_bytes tag v))
parse_field-field_bytes tag v rest h c =
    rw (field_bytes-append tag v rest, length-field_bytes tag v)
      (parse_field_decimal tag v rest h c)

abbrev round : ℕ → Body → ℕ → ℕ → Bytes → Outcome Body
round fuel b pos fin s =
    body_status b pos fin (parse_field s) >>= λ r. parse_body fuel r.0 (pos + r.1) fin (drop r.1 s)

parse_body-round :
    (fuel : ℕ) (b : Body) (pos fin : ℕ) (s : Bytes)
    → 0 < length s
    → parse_body (suc fuel) b pos fin s ≡ round fuel b pos fin s
unfolding parse_body
parse_body-round fuel b pos fin [] h = elim h [ ]
parse_body-round fuel b pos fin (c ∷ cs) h = refl

parse_body-nil : (fuel : ℕ) (b : Body) (pos fin : ℕ) → parse_body fuel b pos fin [] ≡ next b
unfolding parse_body
parse_body-nil zero b pos fin = refl
parse_body-nil (suc fuel) b pos fin = refl

-- The body loop, on the fields rendered by the serializer, appends them all in their order, but
-- for repeated standard-header tags, which flag the message.
pub parse_body-render :
    (fs : List Field) (fuel : ℕ) (b : Body) (pos fin : ℕ)
    → All IsSendable fs
    → IsSeen b.seen
    → length (render fs) ≤ fuel
    → parse_body fuel b pos fin (render fs) ≡ next (collect b fs)
unfolding render collect
parse_body-render [] fuel b pos fin s h le = parse_body-nil fuel b pos fin
parse_body-render (f ∷ fs) zero b pos fin s h le = absurd (
    omega (
      arith,
      length-append (field_bytes f.tag f.value) (render fs),
      length-field_bytes f.tag f.value,
    ))
parse_body-render (f ∷ fs) (suc fuel) b pos fin s h le =
    let head = field_bytes f.tag f.value in
    let size = length-append head (render fs) in
    let width = length-field_bytes f.tag f.value in
    let (taken, seen) = body_field-absorb b pos f s.0 h in
    parse_body-round fuel b pos fin (head ++ render fs) (omega arith)
    ∙ rw
        (
          parse_field-field_bytes f.tag f.value (render fs) s.0.tag_fits s.0.clean,
          taken,
          drop_append (length head) head (render fs) refl,
        )
        (parse_body-render fs fuel (absorb b f) (pos + length head) fin s.1 seen (omega arith))
