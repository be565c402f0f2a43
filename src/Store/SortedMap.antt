-- ===== src/Store/SortedMap.antt =====
-- `std::map` from sequence numbers: a list of entries whose keys ascend.
use fix_protocol.Prelude.{
  ℕ, ◌≤◌, ◌<◌, ◌≡◌, refl, ◌&&◌, Option, none, some, List, [], ◌∷◌, Bytes, arith, leb, ltb, ◌==◌,
  if◌then◌else◌,
}

-- A key with its value.
pub record Slot (V : Type 0) : Type 0 where
  pub seq : ℕ
  pub value : V

-- A sequence number with its frame.
abbrev pub Entry : Type 0
Entry = Slot Bytes

abbrev pub slot : {V : Type 0} → ℕ → V → Slot V
slot n v = record { seq = n; value = v }

abbrev pub entry : ℕ → Bytes → Entry
entry n raw = slot n raw

module _ {V : Type 0} where
  -- The keys are above `n` and ascend.
  abbrev pub Above : ℕ → List (Slot V) → Type 0
  Above n [] = Unit
  Above n (e ∷ es) = (n < e.seq) × Above e.seq es

  abbrev pub Ascending : List (Slot V) → Type 0
  Ascending [] = Unit
  Ascending (e ∷ es) = Above e.seq es

  -- `m[n] = v`.
  unfoldable pub assign : ℕ → V → List (Slot V) → List (Slot V)
  assign n v [] = slot n v ∷ []
  assign n v (e ∷ es) =
      let rest = assign n v es in
      if ltb n e.seq then slot n v ∷ e ∷ es else if n == e.seq then slot n v ∷ es else e ∷ rest

  -- The value under `n`.
  unfoldable pub find : ℕ → List (Slot V) → Option V
  find n [] = none
  find n (e ∷ es) = if e.seq == n then some e.value else find n es

  -- From `lower_bound(n)` to the end.
  unfoldable pub lower_bound : ℕ → List (Slot V) → List (Slot V)
  lower_bound n [] = []
  lower_bound n (e ∷ es) = if ltb e.seq n then lower_bound n es else e ∷ es

  -- The entries that a loop sees that stops at the first key past `last`.
  unfoldable pub up_to : ℕ → List (Slot V) → List (Slot V)
  up_to last [] = []
  up_to last (e ∷ es) = let rest = up_to last es in if leb e.seq last then e ∷ rest else []

  -- The greatest key, and 0 if there is none.
  unfoldable pub last_key : List (Slot V) → ℕ
  last_key [] = 0
  last_key (e ∷ []) = e.seq
  last_key (_ ∷ e ∷ es) = last_key (e ∷ es)

  -- The entries whose keys are in a range, by themselves.
  unfoldable pub within : ℕ → ℕ → List (Slot V) → List (Slot V)
  within first last [] = []
  within first last (e ∷ es) =
      let rest = within first last es in
      if leb first e.seq && leb e.seq last then e ∷ rest else rest

  Above-weaken : (m n : ℕ) (es : List (Slot V)) → m ≤ n → Above n es → Above m es
  Above-weaken m n [] le h = tt
  Above-weaken m n (e ∷ es) le h = (omega (arith, h.0), h.1)

  Above-Ascending : (m : ℕ) (es : List (Slot V)) → Above m es → Ascending es
  Above-Ascending m [] h = tt
  Above-Ascending m (e ∷ es) h = h.1

  Above-assign :
      (m n : ℕ) (v : V) (es : List (Slot V)) → m < n → Above m es → Above m (assign n v es)
  unfolding assign
  Above-assign m n v [] lt h = (lt, tt)
  Above-assign m n v (e ∷ es) lt h = ground (arith, Above-assign e.seq n v es)

  -- Assigning keeps the keys ascending.
  pub assign-Ascending :
      (n : ℕ) (v : V) (es : List (Slot V)) → Ascending es → Ascending (assign n v es)
  unfolding assign
  assign-Ascending n v [] h = tt
  assign-Ascending n v (e ∷ es) h = ground (arith, Above-assign e.seq n v es)

  -- An assigned key has its new value, and every other key the one it had.
  pub find-assign :
      (k n : ℕ) (v : V) (es : List (Slot V))
      → find k (assign n v es) ≡ (if k == n then some v else find k es)
  unfolding find assign
  find-assign k n v [] = ground arith
  find-assign k n v (e ∷ es) = ground (arith, find-assign k n v es)

  up_to-Above : (last n : ℕ) (es : List (Slot V)) → last ≤ n → Above n es → up_to last es ≡ []
  unfolding up_to
  up_to-Above last n [] le h = refl
  up_to-Above last n (e ∷ es) le h = ground arith

  within-below :
      (first last n : ℕ) (es : List (Slot V)) → last ≤ n → Above n es → within first last es ≡ []
  unfolding within
  within-below first last n [] le h = refl
  within-below first last n (e ∷ es) le h = ground (arith, within-below first last e.seq es)

  within-up_to :
      (first last n : ℕ) (es : List (Slot V))
      → first ≤ n
      → Above n es
      → within first last es ≡ up_to last es
  unfolding within up_to
  within-up_to first last n [] le h = refl
  within-up_to first last n (e ∷ es) le h =
      ground (arith, within-up_to first last e.seq es, within-below first last e.seq es)

  -- In a map, the walk from the lower bound up to the last key sees just the entries in the range.
  pub walk-within :
      (first last : ℕ) (es : List (Slot V))
      → Ascending es
      → up_to last (lower_bound first es) ≡ within first last es
  unfolding up_to lower_bound within
  walk-within first last [] h = refl
  walk-within first last (e ∷ es) h = ground (
    arith,
    walk-within first last es (Above-Ascending e.seq es h),
    within-up_to first last e.seq es,
    within-below first last e.seq es,
  )
