-- ===== src/Parser/Frame/Bounds.antt =====
-- What a delivered frame is bounded by, and that no frame aborts the process.
use fix_protocol.Prelude.{ℕ, zero, suc, ◌+◌, ◌≤◌, ◌≡◌, [], ◌∷◌, Bytes, arith, length, take, drop}
use fix_protocol.Core.Types.{ErrorCode, invalid_field, bad_length}
use fix_protocol.Core.Tags
use fix_protocol.Parser.Field.HeaderTags.{IsSeen, check_and_mark-Marks, seed_IsSeen}
use fix_protocol.Parser.Field.{FieldStatus, incomplete, invalid, parse_field}
use fix_protocol.Parser.Frame.{
  Options, Verdict, accept, abort, Outcome, stop, next, ◌>>=◌, header_field, body_length_value,
  frame_bounds, Body, body_field, parse_body, check_trailer, seed, body_status, parse_frame,
  trailer_bytes,
}

-- A verdict that neither delivers a message nor aborts.
abbrev pub IsRefusal : Verdict → Type 0
IsRefusal (accept _ _) = ⊥
IsRefusal abort = ⊥
IsRefusal _ = Unit

-- Every early return is a refusal, and a value that is handed on has the property.
abbrev pub Ends {ℓ} : {A : Type ℓ} → (A → Type 0) → Outcome A → Type 0
Ends P (stop v) = IsRefusal v
Ends P (next a) = P a

pub Ends-bind {ℓ κ} :
    {A : Type ℓ} {B : Type κ} (P : A → Type 0) (Q : B → Type 0) (m : Outcome A) (f : A → Outcome B)
    → Ends P m
    → ((a : A) → P a → Ends Q (f a))
    → Ends Q (m >>= f)
Ends-bind P Q (stop v) f h k = h
Ends-bind P Q (next a) f h k = k a h

abbrev Any {ℓ} : {A : Type ℓ} → A → Type 0
Any a = Unit

header_field-Ends :
    (base : Bytes) (pos skipped : ℕ) (wrong : ErrorCode) (expected : ℕ)
    → Ends Any (header_field base pos skipped wrong expected)
unfolding header_field
header_field-Ends base pos skipped wrong expected = ground arith

body_length_value-Ends : (v : Bytes) (pos : ℕ) → Ends Any (body_length_value v pos)
unfolding body_length_value
body_length_value-Ends v pos = ground arith

frame_bounds-Ends :
    (opts : Options) (cap avail start len : ℕ)
    → Ends (λ fin. (fin ≡ start + len) × (fin + 7 ≤ avail)) (frame_bounds opts cap avail start len)
unfolding frame_bounds
frame_bounds-Ends opts cap avail start len = ground arith

abbrev Seen : Body → Type 0
Seen b = IsSeen b.seen

seed-Ends : (v : Bytes) (n pos : ℕ) → Ends Seen (seed v n pos)
unfolding seed
seed-Ends v n pos = ground (arith, seed_IsSeen)

body_field-Ends : (b : Body) (pos tag : ℕ) (v : Bytes) → Seen b → Ends Seen (body_field b pos tag v)
unfolding body_field
body_field-Ends b pos tag v h = ground (arith, check_and_mark-Marks b.seen tag h)

body_status-Ends :
    (b : Body) (pos fin : ℕ) (r : FieldStatus)
    → Seen b
    → Ends (λ (x : Body × ℕ). Seen x.0) (body_status b pos fin r)
body_status-Ends b pos fin incomplete h = tt
body_status-Ends b pos fin invalid h = tt
body_status-Ends b pos fin (FieldStatus.ok tag v len) h =
    Ends-bind Seen (λ (x : Body × ℕ). Seen x.0) (body_field b pos tag v) (λ b'. next (b', len))
      (body_field-Ends b pos tag v h) (λ b' h'. h')

parse_body-Ends :
    (fuel : ℕ) (b : Body) (pos fin : ℕ) (s : Bytes)
    → Seen b
    → Ends Seen (parse_body fuel b pos fin s)
unfolding parse_body
parse_body-Ends fuel b pos fin [] h = h
parse_body-Ends zero b pos fin (c ∷ cs) h = tt
parse_body-Ends (suc fuel) b pos fin (c ∷ cs) h =
    Ends-bind (λ (x : Body × ℕ). Seen x.0) Seen (body_status b pos fin (parse_field (c ∷ cs))) _
      (body_status-Ends b pos fin (parse_field (c ∷ cs)) h)
      (λ r h'. parse_body-Ends fuel r.0 (pos + r.1) fin (drop r.1 (c ∷ cs)) h')

check_trailer-Ends :
    (opts : Options) (base : Bytes) (start len fin : ℕ)
    → Ends (λ n. n ≡ fin + trailer_bytes) (check_trailer opts base start len fin)
unfolding check_trailer
check_trailer-Ends opts base start len fin = ground arith

-- A delivered frame has at least the bytes of its trailer, and no more than are buffered.
abbrev pub Fits : Bytes → Verdict → Type 0
Fits base (accept n m) = (trailer_bytes ≤ n) × (n ≤ length base)
Fits base _ = ⊥

-- Whatever bytes are buffered, deciding about the frame in front ends in waiting, in a skip, or in
-- a delivered frame that has at least the bytes of its trailer and is buffered whole; it never
-- aborts.
pub parse_frame-Ends :
    (opts : Options) (cap : ℕ) (base : Bytes) → Ends (Fits base) (parse_frame opts cap base)
unfolding parse_frame
parse_frame-Ends opts cap base =
    Ends-bind Any (Fits base) (header_field base 0 1 invalid_field Tags.begin_string) _
      (header_field-Ends base 0 1 invalid_field Tags.begin_string)
      λ (bv, pos) _.
        Ends-bind Any (Fits base) (header_field base pos pos bad_length Tags.body_length) _
          (header_field-Ends base pos pos bad_length Tags.body_length)
          λ (lv, start) _.
            Ends-bind Any (Fits base) (body_length_value lv start) _
              (body_length_value-Ends lv start)
              λ len _.
                Ends-bind (λ fin. (fin ≡ start + len) × (fin + 7 ≤ length base)) (Fits base)
                  (frame_bounds opts cap (length base) start len) _
                  (frame_bounds-Ends opts cap (length base) start len)
                  λ fin room.
                    Ends-bind Seen (Fits base) (seed bv len start) _ (seed-Ends bv len start)
                      λ b seen.
                        Ends-bind Seen (Fits base)
                          (parse_body len b start fin (take len (drop start base))) _
                          (parse_body-Ends len b start fin (take len (drop start base)) seen)
                          λ b' _.
                            Ends-bind (λ n. n ≡ fin + trailer_bytes) (Fits base)
                              (check_trailer opts base start len fin) _
                              (check_trailer-Ends opts base start len fin) (λ n e. omega arith)
