-- ===== src/Serializer/Render.antt =====
-- What `try_serialize` writes: the fields that it emits, in their order, framed by `build`.
use fix_protocol.Prelude.{
  ℕ, ◌≡◌, refl, Bool, true, false, ◌||◌, Option, none, some, List, [], ◌∷◌, ◌++◌, Bytes, arith,
  append-nil, append_assoc, if◌then◌else◌, Bool-cases, inl, inr, ◌∙◌, ap, sym, to_int64,
}
use fix_protocol.Prelude.Decimal.{int_to_decimal}
use fix_protocol.Core.Types.{ErrorCode, invalid_field, Result, ok, err}
use fix_protocol.Core.Message.{Field, Message, has_invalid_wire_chars, msg_type}
use fix_protocol.Core.Tags
use fix_protocol.Serializer.{
  Builder, Call, Done, ◌>>◌, return, field_bytes, handed, add, add_int, begin, build, field_of,
  add_if_present, is_skipped, add_fields, Envelope, build_frame, emit_fields, try_serialize,
}

abbrev pub field : ℕ → Bytes → Field
field tag value = record { tag = tag; value = value }

abbrev pub optional : ℕ → Option Field → List Field
optional tag none = []
optional tag (some f) = field tag f.value ∷ []

unfoldable pub kept : List Field → List Field
kept [] = []
kept (f ∷ fs) = if is_skipped f.tag then kept fs else f ∷ kept fs

-- The fields of the frame between BodyLength and CheckSum, in the order of the wire: the header
-- fields in their fixed order, then the message's other fields in their own order.
unfoldable pub emitted : Message → Envelope → List Field
emitted m e =
    field Tags.msg_type (msg_type m)
    ∷ field Tags.sender_comp_id e.sender
    ∷ field Tags.target_comp_id e.target
    ∷ field Tags.msg_seq_num (int_to_decimal (to_int64 e.seq_num))
    ∷ (optional Tags.poss_dup_flag (field_of m.fields Tags.poss_dup_flag)
        ++ (optional Tags.orig_sending_time (field_of m.fields Tags.orig_sending_time)
            ++ (field Tags.sending_time e.sending_time ∷ kept m.fields)))

unfoldable pub render : List Field → Bytes
render [] = []
render (f ∷ fs) = field_bytes f.tag f.value ++ render fs

-- Some value cannot stand on the wire.
unfoldable pub dirty : List Field → Bool
dirty [] = false
dirty (f ∷ fs) = has_invalid_wire_chars f.value || dirty fs

pub render-append : (fs gs : List Field) → render (fs ++ gs) ≡ render fs ++ render gs
unfolding render
render-append [] gs = refl
render-append (f ∷ fs) gs =
    rw (render-append fs gs)
      (sym (append_assoc (field_bytes f.tag f.value) (render fs) (render gs)))

dirty-append : (fs gs : List Field) → dirty (fs ++ gs) ≡ (dirty fs || dirty gs)
unfolding dirty
dirty-append [] gs = refl
dirty-append (f ∷ fs) gs = ground (arith, dirty-append fs gs)

abbrev extended : Builder → List Field → Builder
extended b fs = record b { body = b.body ++ render fs }

-- The call writes these fields, or refuses because of one of them.
record Emits (c : Call Done) (fs : List Field) : Type 0 where
  writes : (b : Builder) → b.last_error ≡ none → dirty fs ≡ false → c b ≡ (extended b fs, ok tt)
  refuses : (b : Builder) → b.last_error ≡ none → dirty fs ≡ true → (c b).1 ≡ err invalid_field

Emits-return : Emits (return tt) []
unfolding render dirty
Emits-return = record { writes = λ b h d. rw append-nil; refuses = λ b h d. cc }

Emits-add : (tag : ℕ) (value : Bytes) → Emits (add tag value) (field tag value ∷ [])
unfolding add render dirty
Emits-add tag value = record {
  writes = λ b h d. ground (arith, append-nil (field_bytes tag value));
  refuses = λ b h d. ground arith;
}

handed-err :
    (r : Builder × Result Done) (k : Done → Call Done) {e : ErrorCode}
    → r.1 ≡ err e
    → (handed r k).1 ≡ err e
handed-err (b, ok a) k h = cc
handed-err (b, err e') k h = h

extended-extended :
    (b : Builder) (fs gs : List Field) → extended (extended b fs) gs ≡ extended b (fs ++ gs)
extended-extended b fs gs = rw (render-append fs gs, append_assoc b.body (render fs) (render gs))

Emits-then :
    (m k : Call Done) (fs gs : List Field) → Emits m fs → Emits k gs → Emits (m >> k) (fs ++ gs)
Emits-then m k fs gs em ek = record {
  writes = λ b h d. rw (em.writes b h (ground (arith, dirty-append fs gs))) (
      ek.writes (extended b fs) h (ground (arith, dirty-append fs gs))
      ∙ ap (λ c. (c, ok tt)) (extended-extended b fs gs));
  refuses = λ b h d. elim (Bool-cases (dirty fs)) [
    | inl bad ↦ handed-err (m b) (λ _. k) (em.refuses b h bad)
    | inr good ↦
        rw (em.writes b h good) (ek.refuses (extended b fs) h (ground (arith, dirty-append fs gs)))
  ];
}

Emits-add_if_present : (tag : ℕ) (f : Option Field) → Emits (add_if_present tag f) (optional tag f)
unfolding add_if_present
Emits-add_if_present tag none = Emits-return
Emits-add_if_present tag (some f) = Emits-add tag f.value

Emits-add_fields : (fs : List Field) → Emits (add_fields fs) (kept fs)
unfolding add_fields kept
Emits-add_fields [] = Emits-return
Emits-add_fields (f ∷ fs) = elim (Bool-cases (is_skipped f.tag)) [
  | inl skip ↦ rw skip (Emits-add_fields fs)
  | inr keep ↦ rw keep (
      Emits-then (add f.tag f.value) (add_fields fs) (f ∷ []) (kept fs) (Emits-add f.tag f.value)
        (Emits-add_fields fs))
]

Emits-emit_fields :
    (m : Message) (e : Envelope)
    → Emits (add Tags.msg_type (msg_type m) >> emit_fields m e) (emitted m e)
unfolding emit_fields emitted add_int
Emits-emit_fields m e = Emits-then _ _ (field Tags.msg_type _ ∷ []) _ (Emits-add _ _) (
    Emits-then _ _ (field Tags.sender_comp_id _ ∷ []) _ (Emits-add _ _) (
      Emits-then _ _ (field Tags.target_comp_id _ ∷ []) _ (Emits-add _ _) (
        Emits-then _ _ (field Tags.msg_seq_num _ ∷ []) _ (Emits-add _ _) (
          Emits-then _ _ (optional Tags.poss_dup_flag _) _ (Emits-add_if_present _ _) (
            Emits-then _ _ (optional Tags.orig_sending_time _) _ (Emits-add_if_present _ _) (
              Emits-then _ _ (field Tags.sending_time _ ∷ []) _ (Emits-add _ _)
                (Emits-add_fields m.fields)))))))

handed_assoc :
    (r : Builder × Result Done) (k : Call Done) (l : Call Bytes)
    → handed r (λ _. k >> l) ≡ handed (handed r (λ _. k)) (λ _. l)
handed_assoc (b, ok a) k l = refl
handed_assoc (b, err e) k l = refl

handed-result :
    (r : Builder × Result Done) (l : Call Bytes) {e : ErrorCode}
    → r.1 ≡ err e
    → (handed r (λ _. l)).1 ≡ err e
handed-result (b, ok a) l h = cc
handed-result (b, err e') l h = ground arith

-- From the empty builder that `begin` leaves.
finished :
    (m : Message) (e : Envelope) (b : Builder)
    → b.last_error ≡ none
    → (handed ((add Tags.msg_type (msg_type m) >> emit_fields m e) b) (λ _. build_frame)).1 ≡ (
        if dirty (emitted m e)
        then err invalid_field
        else ok (build b.begin_string (b.body ++ render (emitted m e))))
unfolding build_frame
finished m e b h = elim (Bool-cases (dirty (emitted m e))) [
  | inl bad ↦ rw bad (handed-result _ build_frame ((Emits-emit_fields m e).refuses b h bad))
  | inr good ↦ rw (good, (Emits-emit_fields m e).writes b h good, h)
]

begin_bad :
    (e : Envelope) (mt : Bytes) (b : Builder) (l : Call Bytes)
    → (has_invalid_wire_chars e.version || has_invalid_wire_chars mt) ≡ true
    → (handed (begin e.version mt b) (λ _. l)).1 ≡ err invalid_field
unfolding begin
begin_bad e mt b l h = rw h

begin_good :
    (e : Envelope) (mt : Bytes) (b : Builder)
    → (has_invalid_wire_chars e.version || has_invalid_wire_chars mt) ≡ false
    → begin e.version mt b
      ≡ add Tags.msg_type mt (record { begin_string = e.version; body = []; last_error = none })
unfolding begin
begin_good e mt b h = rw h

msg_type-dirty :
    (m : Message) (e : Envelope)
    → has_invalid_wire_chars (msg_type m) ≡ true
    → dirty (emitted m e) ≡ true
unfolding emitted dirty
msg_type-dirty m e h = rw h

-- `try_serialize` succeeds exactly when no value that it emits, the version included, holds NUL or
-- SOH; then the frame is that of the emitted fields, and otherwise the error is `InvalidField`.
pub try_serialize-emitted :
    (m : Message) (e : Envelope) (b : Builder)
    → (try_serialize m e b).1 ≡ (
        if has_invalid_wire_chars e.version || dirty (emitted m e)
        then err invalid_field
        else ok (build e.version (render (emitted m e))))
unfolding try_serialize
try_serialize-emitted m e b =
    elim (Bool-cases (has_invalid_wire_chars e.version || has_invalid_wire_chars (msg_type m))) [
      | inl bad ↦
          begin_bad e (msg_type m) b (emit_fields m e >> build_frame) bad
          ∙ ground (arith, msg_type-dirty m e)
      | inr good ↦ rw (begin_good e (msg_type m) b good) (
          ap (λ r. r.1) (handed_assoc _ (emit_fields m e) build_frame)
          ∙ finished m e _ refl
          ∙ ground arith)
    ]
