-- ===== src/Tests/OfCore.antt =====
-- include/fix/core: the theorems of messages and versions at concrete inputs.
use fix_protocol.Prelude.{◌≡◌, refl, false, some, [], ◌∷◌, codes}
use fix_protocol.Core.Message.{Message, get, get_all}

-- An order with two accounts.
abbrev order : Message
order = record {
  fields =
      record { tag = 35; value = codes "D" }
      ∷ record { tag = 1; value = codes "A" }
      ∷ record { tag = 1; value = codes "B" }
      ∷ [];
  raw = [];
  duplicate_header = false;
}

-- The occurrences of a repeated tag come out in their order, and the first is the one read.
accounts : (get_all order 1 ≡ codes "A" ∷ codes "B" ∷ []) × (get order 1 ≡ some (codes "A"))
unfolding get_all get
accounts = (refl, refl)
