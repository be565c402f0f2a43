-- ===== src/Core/Message/Clean.antt =====
-- No operation of a message lets NUL or SOH into a field's value.
use fix_protocol.Prelude.{
  ℕ, ◌≡◌, refl, true, false, List, [], ◌∷◌, Bytes, arith, All, All-append, Bool-cases, inl, inr,
}
use fix_protocol.Core.Types.{err, invalid_field}
use fix_protocol.Core.Message.{
  Field, Message, has_invalid_wire_chars, set_field, set, add, remove_fields, remove,
}

abbrev pub IsClean : Field → Type 0
IsClean f = has_invalid_wire_chars f.value ≡ false

-- Every value of the message can stand on the wire.
abbrev pub AllClean : Message → Type 0
AllClean m = All IsClean m.fields

set_field-Clean :
    (fs : List Field) (tag : ℕ) (v : Bytes)
    → All IsClean fs
    → has_invalid_wire_chars v ≡ false
    → All IsClean (set_field fs tag v)
unfolding set_field
set_field-Clean [] tag v h hv = (hv, tt)
set_field-Clean (f ∷ fs) tag v h hv = ground (arith, set_field-Clean fs tag v h.1 hv)

remove_fields-Clean :
    (fs : List Field) (tag : ℕ) → All IsClean fs → All IsClean (remove_fields fs tag)
unfolding remove_fields
remove_fields-Clean [] tag h = tt
remove_fields-Clean (f ∷ fs) tag h = ground (arith, remove_fields-Clean fs tag h.1)

-- One call on a message.
pub data Edit : Type 0 where
  sets adds : ℕ → Bytes → Edit
  removes : ℕ → Edit

abbrev pub edit : Message → Edit → Message
edit m (sets tag v) = (set m tag v).0
edit m (adds tag v) = (add m tag v).0
edit m (removes tag) = remove m tag

-- Whatever is set, added or removed, the values stay free of NUL and SOH.
pub edit-AllClean : (m : Message) (e : Edit) → AllClean m → AllClean (edit m e)
unfolding set add remove
edit-AllClean m (sets tag v) h = elim (Bool-cases (has_invalid_wire_chars v)) [
  | inl bad ↦ rw (edit, bad) h
  | inr good ↦ rw (edit, good) (set_field-Clean m.fields tag v h good)
]
edit-AllClean m (adds tag v) h = elim (Bool-cases (has_invalid_wire_chars v)) [
  | inl bad ↦ rw (edit, bad) h
  | inr good ↦ rw (edit, good) (All-append IsClean m.fields _ h (good, tt))
]
edit-AllClean m (removes tag) h = remove_fields-Clean m.fields tag h

-- A value with NUL or SOH is refused with `InvalidField` and leaves the message as it was.
pub set-add_refuse :
    (m : Message) (tag : ℕ) (v : Bytes)
    → has_invalid_wire_chars v ≡ true
    → (set m tag v ≡ (m, err invalid_field)) × (add m tag v ≡ (m, err invalid_field))
unfolding set add
set-add_refuse m tag v h = rw h (refl, refl)
