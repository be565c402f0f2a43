-- ===== src/Session/Resend/Duplicate.antt =====
-- src/session/session.cpp, `handle_resend_request`: what a gap-fill and a message sent again have in
-- them.
use fix_protocol.Prelude.{
  ℕ, ◌+◌, ◌≡◌, refl, ◌||◌, true, false, Option, none, some, List, [], ◌∷◌, Bytes, codes, arith,
  ◌==◌, if◌then◌else◌, Bool-cases, inl, inr, ap, ◌∙◌, sym, to_int64, ℤ, pos, negsuc,
}
use fix_protocol.Prelude.Decimal.{int_to_decimal}
use fix_protocol.Core.Message.{
  Field, Message, get, set, set_int, set_field, message, has_invalid_wire_chars,
}
use fix_protocol.Core.Message.Access.{get-set}
use fix_protocol.Serializer.Render.{field}
use fix_protocol.Serializer.RoundTrip.{to_decimal-clean}
use fix_protocol.Session.Resend.{gap_fill, retag, with_orig}

pub int_to_decimal-clean : (z : ℤ) → has_invalid_wire_chars (int_to_decimal z) ≡ false
unfolding int_to_decimal has_invalid_wire_chars
int_to_decimal-clean (pos n) = to_decimal-clean n
int_to_decimal-clean (negsuc n) = to_decimal-clean (n + 1)

-- A SequenceReset in gap-fill mode, marked as a possible duplicate, with these digits as NewSeqNo.
unfoldable pub filler : Bytes → Message
filler digits = record {
  fields =
      field 35 (codes "4") ∷ field 123 (codes "Y") ∷ field 43 (codes "Y") ∷ field 36 digits ∷ [];
  raw = [];
  duplicate_header = false;
}

-- The same up to the number `n`.
abbrev pub filler_to : ℕ → Message
filler_to n = filler (int_to_decimal (to_int64 n))

pub gap_fill-fields : (n : ℕ) → gap_fill n ≡ filler_to n
unfolding filler gap_fill message set set_int set_field has_invalid_wire_chars
gap_fill-fields n = rw (gap_fill, int_to_decimal-clean (to_int64 n)) refl

-- The fields other than PossDupFlag and OrigSendingTime, in their order.
unfoldable pub others : List Field → List Field
others [] = []
others (f ∷ fs) = if f.tag == 43 || f.tag == 122 then others fs else f ∷ others fs

-- The second message is the first one marked as a possible duplicate: it has PossDupFlag Y, the
-- first one's SendingTime as OrigSendingTime, or the first one's OrigSendingTime where that is missing
-- or holds NUL or SOH, and every other field as it was.
pub record IsDuplicate (m d : Message) : Type 0 where
  pub flag : get d 43 ≡ some (codes "Y")
  pub time : (t : Bytes) → get m 52 ≡ some t → has_invalid_wire_chars t ≡ false → get d 122 ≡ some t
  pub untimed :
      ((t : Bytes) → get m 52 ≡ some t → has_invalid_wire_chars t ≡ true) → get d 122 ≡ get m 122
  pub same : others d.fields ≡ others m.fields

others-set_field :
    (fs : List Field) (tag : ℕ) (v : Bytes)
    → (tag == 43 || tag == 122) ≡ true
    → others (set_field fs tag v) ≡ others fs
unfolding others set_field
others-set_field [] tag v h = rw h refl
others-set_field (f ∷ fs) tag v h = elim (Bool-cases (f.tag == tag)) [
  | inl e ↦
      let x : (f.tag == 43 || f.tag == 122) ≡ true = ground (arith, h, e) in
      rw (e, set_field) (rw (x, others) refl)
  | inr ne ↦
      rw (ne, set_field)
        (ap (λ r. if f.tag == 43 || f.tag == 122 then r else f ∷ r) (others-set_field fs tag v h))
]

others-set :
    (m : Message) (tag : ℕ) (v : Bytes)
    → (tag == 43 || tag == 122) ≡ true
    → others (set m tag v).0.fields ≡ others m.fields
unfolding set
others-set m tag v h = elim (Bool-cases (has_invalid_wire_chars v)) [
  | inl bad ↦ rw (bad, set) refl
  | inr good ↦ rw (good, set) (others-set_field m.fields tag v h)
]

get-set_43 :
    (m : Message) (tag : ℕ) (v : Bytes)
    → get m 43 ≡ some (codes "Y")
    → (tag == 43) ≡ false
    → get (set m tag v).0 43 ≡ some (codes "Y")
unfolding set
get-set_43 m tag v h ne = elim (Bool-cases (has_invalid_wire_chars v)) [
  | inl bad ↦ rw (bad, set) h
  | inr good ↦ (get-set m tag 43 v good).1 ∙ rw ne h
]

refused_time :
    (n : Message) (u : Bytes)
    → has_invalid_wire_chars u ≡ true
    → get (set n 122 u).0 122 ≡ get n 122
unfolding set
refused_time n u bad = rw (bad, set) refl

timed :
    (m n : Message) (o : Option Bytes)
    → get n 43 ≡ some (codes "Y")
    → get n 122 ≡ get m 122
    → others n.fields ≡ others m.fields
    → get m 52 ≡ o
    → IsDuplicate m (with_orig o n)
timed m n none flag orig same e = record {
  flag = flag;
  time = λ t h c. cc;
  untimed = λ _. orig;
  same = same;
}
timed m n (some u) flag orig same e = record {
  flag = get-set_43 n 122 u flag refl;
  time = λ t h c.
      let x : Path (Option Bytes) (some u) (some t) = sym e ∙ h in
      let y : u ≡ t = cc in (get-set n 122 122 u (ap has_invalid_wire_chars y ∙ c)).1 ∙ ap some y;
  untimed = λ bad. refused_time n u (bad u e) ∙ orig;
  same = others-set n 122 u refl ∙ same;
}

pub retag-IsDuplicate : (m : Message) → IsDuplicate m (retag m)
unfolding retag
retag-IsDuplicate m =
    let n = (set m 43 (codes "Y")).0 in
    let clean : has_invalid_wire_chars (codes "Y") ≡ false =
      unfold has_invalid_wire_chars in refl in
    let same = (get-set m 43 52 (codes "Y") clean).1 in
    let orig = (get-set m 43 122 (codes "Y") clean).1 in
    let flag = (get-set m 43 43 (codes "Y") clean).1 in
    timed m n (get n 52) flag orig (others-set m 43 (codes "Y") refl) (sym same)
