-- ===== src/Dictionary/Names.antt =====
-- src/dictionary/data_dictionary.cpp: the name index, whatever the order of the unordered maps.
use mathlib.Core.List.{Memᴰ}
use mathlib.Core.List.Memᴰ
use fix_protocol.Prelude.{
  ℕ, ◌<◌, ◌≡◌, ◌≢◌, refl, ◌⊎◌, inl, inr, true, false, none, some, List, [], ◌∷◌, Bytes, equal,
  equal_iff, if◌then◌else◌, ◌==◌, arith, ap, sym, ◌∙◌, Bool-cases,
}
use fix_protocol.Store.SortedMap.{Slot, assign, Above, Ascending, assign-Ascending}
use fix_protocol.Dictionary.Definitions.{FieldDef}
use fix_protocol.Dictionary.Tables.{
  Table, lookup, put, lookup_tag, DataDictionary, Orders, name_fields, rebuild_name_index,
  find_field, find_field_by_name, register_field,
}

pub lookup-put :
    {V : Type 0} (k j : Bytes) (v : V) (t : Table V)
    → lookup k (put j v t) ≡ (if equal j k then some v else lookup k t)
unfolding lookup put
lookup-put k j v [] = refl
lookup-put k j v ((i, w) ∷ t) =
    ground (arith, lookup-put k j v t, equal_iff i j, equal_iff i k, equal_iff j k)

lookup_tag-assign :
    (k n : ℕ) (v : FieldDef) (es : List (Slot FieldDef))
    → lookup_tag k (assign n v es) ≡ (if n == k then some v else lookup_tag k es)
unfolding lookup_tag assign
lookup_tag-assign k n v [] = refl
lookup_tag-assign k n v (e ∷ es) = ground (arith, lookup_tag-assign k n v es)

-- An entry of a map is what its key leads to.
lookup_tag-Above :
    (n : ℕ) (es : List (Slot FieldDef)) (e : Slot FieldDef)
    → Above n es
    → Memᴰ e es
    → (n < e.seq) × (lookup_tag e.seq es ≡ some e.value)
unfolding lookup_tag
lookup_tag-Above n [] e h m = absurd (Memᴰ.not-nil m)
lookup_tag-Above n (d ∷ es) e h m = elim (Memᴰ.cases_cons m) [
  | inl same ↦ ground (arith, same, h.0)
  | inr rest ↦ ground (arith, h.0, lookup_tag-Above d.seq es e h.1 rest)
]

lookup_tag-Ascending :
    (es : List (Slot FieldDef)) (e : Slot FieldDef)
    → Ascending es
    → Memᴰ e es
    → lookup_tag e.seq es ≡ some e.value
unfolding lookup_tag
lookup_tag-Ascending [] e h m = absurd (Memᴰ.not-nil m)
lookup_tag-Ascending (d ∷ es) e h m = elim (Memᴰ.cases_cons m) [
  | inl same ↦ ground (arith, same)
  | inr rest ↦ ground (arith, lookup_tag-Above d.seq es e h rest)
]

-- A name leads to the tag of a field with that name, if there is one, and else where it led before.
Named : List (Slot FieldDef) → Table ℕ → Bytes → Type 0
Named es t name =
    ((e : Slot FieldDef) × Memᴰ e es
      × (e.value.name ≡ name)
      × (lookup name (name_fields es t) ≡ some e.seq))
    ⊎ (((e : Slot FieldDef) → Memᴰ e es → e.value.name ≢ name)
        × (lookup name (name_fields es t) ≡ lookup name t))

name_fields-Named : (es : List (Slot FieldDef)) (t : Table ℕ) (name : Bytes) → Named es t name
unfolding name_fields Named
name_fields-Named [] t name = inr (λ e m. absurd (Memᴰ.not-nil m), refl)
name_fields-Named (d ∷ es) t name = elim (name_fields-Named es (put d.value.name d.seq t) name) [
  | inl (e, mem, named, found) ↦ inl (e, Memᴰ.tail mem, named, found)
  | inr (others, found) ↦ elim (Bool-cases (equal d.value.name name)) [
    | inl same ↦ inl (
      d,
      Memᴰ.head refl,
      (equal_iff d.value.name name).0 same,
      found ∙ lookup-put name d.value.name d.seq t ∙ rw same refl,
    )
    | inr other ↦ inr (
      λ e m named. elim (Memᴰ.cases_cons m) [
        | inl same ↦ absurd (
            let x : true ≡ false =
              sym ((equal_iff d.value.name name).1 (ap (λ s. s.value.name) (sym same) ∙ named))
              ∙ other in
            cc)
        | inr rest ↦ others e rest named
      ],
      found ∙ lookup-put name d.value.name d.seq t ∙ rw other refl,
    )
  ]
]

-- The loops see the elements of the map, and no others.
pub record Visits (o : Orders) : Type 0 where
  pub only : (l : List (Slot FieldDef)) (e : Slot FieldDef) → Memᴰ e (o.fields l) → Memᴰ e l
  pub all : (l : List (Slot FieldDef)) (e : Slot FieldDef) → Memᴰ e l → Memᴰ e (o.fields l)

Mem-lookup_tag :
    (k : ℕ) (v : FieldDef) (es : List (Slot FieldDef))
    → lookup_tag k es ≡ some v
    → Memᴰ (record { seq = k; value = v }) es
unfolding lookup_tag
Mem-lookup_tag k v [] h = cc
Mem-lookup_tag k v (e ∷ es) h = elim (Bool-cases (e.seq == k)) [
  | inl t ↦ Memᴰ.head (ground (arith, t, h))
  | inr f ↦ Memᴰ.tail (Mem-lookup_tag k v es (ground (arith, f, h)))
]

-- The name index of a dictionary agrees with its fields.
pub record IsIndexed (d : DataDictionary) : Type 0 where
  pub sound :
      (name : Bytes) (f : FieldDef)
      → find_field_by_name name d ≡ some f
      → (f.name ≡ name) × ((k : ℕ) × (find_field k d ≡ some f))
  pub complete :
      (k : ℕ) (f : FieldDef) → find_field k d ≡ some f → find_field_by_name f.name d ≢ none

-- What a lookup by name finds in a dictionary whose index was rebuilt.
Found : DataDictionary → Bytes → Type 0
Found d name =
    ((e : Slot FieldDef) × (e.value.name ≡ name)
      × (lookup_tag e.seq d.fields_by_tag ≡ some e.value)
      × (find_field_by_name name d ≡ some e.value))
    ⊎ (((k : ℕ) (f : FieldDef) → lookup_tag k d.fields_by_tag ≡ some f → f.name ≢ name)
        × (find_field_by_name name d ≡ none))

rebuild-Found :
    (o : Orders) (d : DataDictionary) (name : Bytes)
    → Visits o
    → Ascending d.fields_by_tag
    → Found (rebuild_name_index o d) name
unfolding rebuild_name_index Found find_field_by_name lookup Named
rebuild-Found o d name visits asc = elim (name_fields-Named (o.fields d.fields_by_tag) [] name) [
  | inl (e, mem, named, found) ↦
      let there = lookup_tag-Ascending d.fields_by_tag e asc (visits.only d.fields_by_tag e mem) in
      inl (e, named, there, rw found there)
  | inr (others, found) ↦ inr (
    λ k f at.
        others (record { seq = k; value = f })
          (visits.all d.fields_by_tag (record { seq = k; value = f })
            (Mem-lookup_tag k f d.fields_by_tag at)),
    rw found refl,
  )
]

Found-sound :
    (d : DataDictionary) (name : Bytes) (f : FieldDef)
    → Found d name
    → find_field_by_name name d ≡ some f
    → (f.name ≡ name) × ((k : ℕ) × (find_field k d ≡ some f))
unfolding Found find_field
Found-sound d name f (inl (e, named, there, found)) h =
    let same : e.value ≡ f = cc in
    (ap (λ (x : FieldDef). x.name) (sym same) ∙ named, (e.seq, there ∙ ap some same))
Found-sound d name f (inr (others, nothing)) h = absurd (let x : ⊥ = cc in x)

Found-complete :
    (d : DataDictionary) (k : ℕ) (f : FieldDef)
    → Found d f.name
    → find_field k d ≡ some f
    → find_field_by_name f.name d ≢ none
unfolding Found find_field
Found-complete d k f (inl (e, named, there, found)) h = λ gone. let x : ⊥ = cc in x
Found-complete d k f (inr (others, nothing)) h = λ _. others k f h refl

rebuild-IsIndexed :
    (o : Orders) (d : DataDictionary)
    → Visits o
    → Ascending d.fields_by_tag
    → IsIndexed (rebuild_name_index o d)
rebuild-IsIndexed o d visits asc = record {
  sound = λ name f. Found-sound (rebuild_name_index o d) name f (rebuild-Found o d name visits asc);
  complete =
      λ k f. Found-complete (rebuild_name_index o d) k f (rebuild-Found o d f.name visits asc);
}

-- A registered field is the one found under its tag, and the others are as they were; afterwards a
-- name leads only to a field of the dictionary with that name, and the name of each field leads to
-- one, in whatever order the unordered maps are gone through, as long as their loops see all their
-- elements and no others.
pub register_field-IsIndexed :
    (o : Orders) (def : FieldDef) (d : DataDictionary)
    → Visits o
    → Ascending d.fields_by_tag
    → ((k : ℕ)
        → find_field k (register_field o def d)
          ≡ (if def.tag == k then some def else find_field k d))
      × IsIndexed (register_field o def d)
unfolding register_field find_field rebuild_name_index
register_field-IsIndexed o def d visits asc = (
  λ k. lookup_tag-assign k def.tag def d.fields_by_tag,
  rebuild-IsIndexed o (record d { fields_by_tag = assign def.tag def d.fields_by_tag }) visits
      (assign-Ascending def.tag def d.fields_by_tag asc),
)
