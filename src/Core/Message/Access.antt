-- ===== src/Core/Message/Access.antt =====
-- What the accessors of a message return after `set`, `add` and `remove`.
use fix_protocol.Prelude.{
  ℕ, ◌≡◌, refl, false, Option, none, some, List, [], ◌∷◌, ◌++◌, Bytes, arith, ◌==◌, if◌then◌else◌,
}
use fix_protocol.Core.Types.{ok}
use fix_protocol.Core.Message.{
  Field, Message, has_invalid_wire_chars, set_field, set, add, find_field, get, all_values, get_all,
  remove_fields, remove,
}

pub find_field-set_field :
    (fs : List Field) (tag other : ℕ) (v : Bytes)
    → find_field (set_field fs tag v) other ≡ (if tag == other then some v else find_field fs other)
unfolding find_field set_field
find_field-set_field [] tag other v = refl
find_field-set_field (f ∷ fs) tag other v = ground (arith, find_field-set_field fs tag other v)

-- `set` of a value without NUL or SOH succeeds, and then the tag reads as that value, and every
-- other tag reads as before.
pub get-set :
    (m : Message) (tag other : ℕ) (v : Bytes)
    → has_invalid_wire_chars v ≡ false
    → ((set m tag v).1 ≡ ok tt)
      × (get (set m tag v).0 other ≡ (if tag == other then some v else get m other))
unfolding set get
get-set m tag other v h = rw h (refl, find_field-set_field m.fields tag other v)

pub all_values-append :
    (fs gs : List Field) (tag : ℕ)
    → all_values (fs ++ gs) tag ≡ all_values fs tag ++ all_values gs tag
unfolding all_values
all_values-append [] gs tag = refl
all_values-append (f ∷ fs) gs tag = ground (arith, all_values-append fs gs tag)

-- `add` of a value without NUL or SOH succeeds and appends one occurrence: the occurrences of its
-- tag are the earlier ones and then the value, and those of every other tag are what they were.
pub get_all-add :
    (m : Message) (tag other : ℕ) (v : Bytes)
    → has_invalid_wire_chars v ≡ false
    → ((add m tag v).1 ≡ ok tt)
      × (get_all (add m tag v).0 other ≡ get_all m other ++ (if tag == other then v ∷ [] else []))
unfolding add get_all
get_all-add m tag other v h =
    rw (h, all_values-append m.fields _ other) (refl, unfold all_values in refl)

all_values-remove_fields :
    (fs : List Field) (tag other : ℕ)
    → all_values (remove_fields fs tag) other ≡ (if tag == other then [] else all_values fs other)
unfolding all_values remove_fields
all_values-remove_fields [] tag other = ground arith
all_values-remove_fields (f ∷ fs) tag other = ground (arith, all_values-remove_fields fs tag other)

-- After `remove` the tag has no occurrence left, and every other tag has the same ones.
pub get_all-remove :
    (m : Message) (tag other : ℕ)
    → get_all (remove m tag) other ≡ (if tag == other then [] else get_all m other)
unfolding remove get_all
get_all-remove m tag other = all_values-remove_fields m.fields tag other

abbrev pub first : List Bytes → Option Bytes
first [] = none
first (v ∷ _) = some v

find_field-first : (fs : List Field) (tag : ℕ) → find_field fs tag ≡ first (all_values fs tag)
unfolding find_field all_values
find_field-first [] tag = refl
find_field-first (f ∷ fs) tag = ground (arith, find_field-first fs tag)

-- `get` returns the earliest of the occurrences that `get_all` returns, and nothing if there is none.
pub get-first : (m : Message) (tag : ℕ) → get m tag ≡ first (get_all m tag)
unfolding get get_all
get-first m tag = find_field-first m.fields tag
