-- ===== src/Dictionary/Validation.antt =====
-- src/dictionary/data_dictionary.cpp, `validate`: which messages conform.
use mathlib.Core.List.{Memᴰ}
use mathlib.Core.List.Memᴰ
use fix_protocol.Prelude.{
  ℕ, ◌≡◌, refl, ◌⊎◌, inl, inr, Bool, true, false, Option, none, some, List, [], ◌∷◌, Bytes, equal,
  equal_iff, if◌then◌else◌, All, sym, ◌∙◌, Bool-cases, Option-cases,
}
use fix_protocol.Core.Types.{Result, ok, err, Done, unknown_message, missing_field, invalid_field}
use fix_protocol.Core.Message.{Field, Message, get, has, msg_type}
use fix_protocol.Dictionary.Definitions.{FieldDef, MessageDef, one_of, validate_value}
use fix_protocol.Dictionary.Tables.{
  DataDictionary, lookup, lookup_tag, all_required, accepts, all_valid, validate_against, validate,
}

-- The message has the field.
abbrev pub IsPresent : Message → ℕ → Type 0
IsPresent m tag = (v : Bytes) × (get m tag ≡ some v)

-- The definition names no values, or this one among them.
abbrev pub Allows : FieldDef → Bytes → Type 0
Allows def v = (def.valid_values ≡ []) ⊎ Memᴰ v def.valid_values

-- The field has no definition, or one that allows its value.
abbrev pub IsAllowed : DataDictionary → Field → Type 0
IsAllowed d f =
    (lookup_tag f.tag d.fields_by_tag ≡ none)
    ⊎ ((def : FieldDef) × (lookup_tag f.tag d.fields_by_tag ≡ some def) × Allows def f.value)

-- What a result of `validate` says.
pub data Verdict (d : DataDictionary) (m : Message) : Result Done → Type 0 where
  conforms :
      (def : MessageDef)
      → lookup (msg_type m) d.messages_by_type ≡ some def
      → All (IsPresent m) def.required_tags
      → All (IsAllowed d) m.fields
      → Verdict d m (ok tt)
  unknown : lookup (msg_type m) d.messages_by_type ≡ none → Verdict d m (err unknown_message)
  missing :
      (def : MessageDef) (tag : ℕ)
      → lookup (msg_type m) d.messages_by_type ≡ some def
      → Memᴰ tag def.required_tags
      → get m tag ≡ none
      → Verdict d m (err missing_field)
  invalid :
      (def : MessageDef) (f : Field) (field : FieldDef)
      → lookup (msg_type m) d.messages_by_type ≡ some def
      → All (IsPresent m) def.required_tags
      → Memᴰ f m.fields
      → lookup_tag f.tag d.fields_by_tag ≡ some field
      → ¬ Allows field f.value
      → Verdict d m (err invalid_field)

-- A test and what it decides.
abbrev Decides : Bool → Type 0 → Type 0
Decides b P = (b ≡ true) × P ⊎ (b ≡ false) × (¬ P)

one_of-cons :
    (v n : Bytes) (ns : List Bytes)
    → Decides (one_of v ns) (Memᴰ v ns)
    → Decides (one_of v (n ∷ ns)) (Memᴰ v (n ∷ ns))
unfolding one_of
one_of-cons v n ns h = elim (Bool-cases (equal v n)) [
  | inl e ↦ inl (rw e refl, Memᴰ.head ((equal_iff v n).0 e))
  | inr e ↦ elim h [
    | inl (t, mem) ↦ inl (rw (e, t) refl, Memᴰ.tail mem)
    | inr (f, not_mem) ↦ inr (
      rw (e, f) refl,
      λ mem. elim (Memᴰ.cases_cons mem) [
        | inl same ↦ absurd (let x : true ≡ false = sym ((equal_iff v n).1 same) ∙ e in cc)
        | inr rest ↦ not_mem rest
      ],
    )
  ]
]

one_of-Decides : (v : Bytes) (ns : List Bytes) → Decides (one_of v ns) (Memᴰ v ns)
unfolding one_of
one_of-Decides v [] = inr (refl, λ m. Memᴰ.not-nil m)
one_of-Decides v (n ∷ ns) = one_of-cons v n ns (one_of-Decides v ns)

-- `validate_value`, by the list of the valid values.
abbrev within : Bytes → List Bytes → Bool
within v ns = if (elim ns [ [] ↦ false | _ ∷ _ ↦ true ]) then one_of v ns else true

within-Decides : (v : Bytes) (ns : List Bytes) → Decides (within v ns) ((ns ≡ []) ⊎ Memᴰ v ns)
within-Decides v [] = inl (refl, inl refl)
within-Decides v (n ∷ ns) = elim (one_of-Decides v (n ∷ ns)) [
  | inl (t, mem) ↦ inl (t, inr mem)
  | inr (f, not_mem) ↦
      inr (f, λ h. elim h [ inl e ↦ absurd (let x : ⊥ = cc in x) | inr mem ↦ not_mem mem ])
]

validate_value-Decides :
    (def : FieldDef) (v : Bytes) → Decides (validate_value def v) (Allows def v)
unfolding validate_value
validate_value-Decides def v = within-Decides v def.valid_values

-- The first required tag that is not there, if there is one.
required-cases :
    (m : Message) (tags : List ℕ)
    → (all_required m tags ≡ true) × All (IsPresent m) tags
      ⊎ (all_required m tags ≡ false) × ((tag : ℕ) × Memᴰ tag tags × (get m tag ≡ none))
unfolding all_required has
required-cases m [] = inl (refl, tt)
required-cases m (tag ∷ tags) = elim (Option-cases (get m tag)) [
  | inl e ↦ inr (rw e refl, (tag, Memᴰ.head refl, e))
  | inr (v, e) ↦ elim (required-cases m tags) [
    | inl (t, all) ↦ inl (rw (e, t) refl, ((v, e), all))
    | inr (f, (other, mem, gone)) ↦ inr (rw (e, f) refl, (other, Memᴰ.tail mem, gone))
  ]
]

-- A field whose value its definition does not allow.
Refused : DataDictionary → List Field → Type 0
Refused d fs =
    (f : Field) × Memᴰ f fs
    × ((def : FieldDef) × (lookup_tag f.tag d.fields_by_tag ≡ some def) × (¬ Allows def f.value))

field-cases :
    (d : DataDictionary) (f : Field)
    → (accepts f.value (lookup_tag f.tag d.fields_by_tag) ≡ true) × IsAllowed d f
      ⊎ (accepts f.value (lookup_tag f.tag d.fields_by_tag) ≡ false)
        × ((def : FieldDef) × (lookup_tag f.tag d.fields_by_tag ≡ some def)
            × (¬ Allows def f.value))
field-cases d f = elim (Option-cases (lookup_tag f.tag d.fields_by_tag)) [
  | inl e ↦ inl (rw e refl, inl e)
  | inr (def, e) ↦ elim (validate_value-Decides def f.value) [
    | inl (t, allows) ↦ inl (rw (e, t) refl, inr (def, e, allows))
    | inr (r, refuses) ↦ inr (rw (e, r) refl, (def, e, refuses))
  ]
]

fields-cases :
    (d : DataDictionary) (fs : List Field)
    → (all_valid d fs ≡ true) × All (IsAllowed d) fs ⊎ (all_valid d fs ≡ false) × Refused d fs
unfolding all_valid Refused
fields-cases d [] = inl (refl, tt)
fields-cases d (f ∷ fs) = elim (field-cases d f) [
  | inl (t, allowed) ↦ elim (fields-cases d fs) [
    | inl (u, all) ↦ inl (rw (t, u) refl, (allowed, all))
    | inr (r, (g, mem, why)) ↦ inr (rw (t, r) refl, (g, Memᴰ.tail mem, why))
  ]
  | inr (r, why) ↦ inr (rw r refl, (f, Memᴰ.head refl, why))
]

validate_against-Verdict :
    (d : DataDictionary) (m : Message) (o : Option MessageDef)
    → lookup (msg_type m) d.messages_by_type ≡ o
    → Verdict d m (validate_against d m o)
unfolding Refused
validate_against-Verdict d m none e = unknown e
validate_against-Verdict d m (some def) e = elim (required-cases m def.required_tags) [
  | inr (f, (tag, mem, gone)) ↦ rw f (missing def tag e mem gone)
  | inl (t, present) ↦ elim (fields-cases d m.fields) [
    | inl (u, allowed) ↦ rw (t, u) (conforms def e present allowed)
    | inr (r, (f, mem, (field, known, refuses))) ↦
        rw (t, r) (invalid def f field e present mem known refuses)
  ]
]

-- `validate` accepts a message only if its type is defined, every required tag is there and each
-- field that has a definition with values has one of them; it reports an unknown message only if
-- the type is not defined, a missing field only if the type is defined and a required tag is not
-- there, and an invalid field only if the type is defined, every required tag is there, and some
-- field has a value that its definition does not name.
pub validate-Verdict : (d : DataDictionary) (m : Message) → Verdict d m (validate d m)
unfolding validate
validate-Verdict d m = validate_against-Verdict d m (lookup (msg_type m) d.messages_by_type) refl
