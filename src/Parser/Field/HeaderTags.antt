-- ===== src/Parser/Field/HeaderTags.antt =====
-- `HeaderSeen`: its array never overflows, since only distinct standard-header tags are recorded.
use fix_protocol.Prelude.{
  ℕ, suc, ◌≤◌, ◌≡◌, ◌≢◌, refl, true, false, ◌||◌, List, [], ◌∷◌, ◌++◌, arith, ◌==◌, if◌then◌else◌,
  length, length-append, Bool-cases, inl, inr, subst,
}
use fix_protocol.Parser.Field.{
  contains, standard_header_tags, header_tag_count, is_standard_header_tag, Mark, present, marked,
  aborted, check_and_mark,
}

abbrev Distinct : List ℕ → Type 0
Distinct [] = Unit
Distinct (t ∷ ts) = (contains ts t ≡ false) × Distinct ts

without : ℕ → List ℕ → List ℕ
without t [] = []
without t (x ∷ xs) = if x == t then xs else x ∷ without t xs

length-without :
    (t : ℕ) (xs : List ℕ) → contains xs t ≡ true → length xs ≡ suc (length (without t xs))
unfolding without contains
length-without t [] h = absurd (let e : ⊥ = cc in e)
length-without t (x ∷ xs) h = ground (arith, length-without t xs)

contains-without :
    (t u : ℕ) (xs : List ℕ) → t ≢ u → contains xs u ≡ true → contains (without t xs) u ≡ true
unfolding without contains
contains-without t u [] ne h = h
contains-without t u (x ∷ xs) ne h = ground (arith, contains-without t u xs ne)

contains-ne : (t u : ℕ) (xs : List ℕ) → contains xs t ≡ false → contains xs u ≡ true → t ≢ u
contains-ne t u xs f h e =
    let b : contains xs u ≡ false = subst (λ k. contains xs k ≡ false) e f in cc

contains-cons : (x u : ℕ) (xs : List ℕ) → contains xs u ≡ true → contains (x ∷ xs) u ≡ true
unfolding contains
contains-cons x u xs h = ground arith

contains_self : (x : ℕ) (xs : List ℕ) → contains (x ∷ xs) x ≡ true
unfolding contains
contains_self x xs = ground arith

-- Distinct numbers out of a list are no more than the list is long.
pigeonhole :
    (xs ys : List ℕ)
    → Distinct xs
    → ((t : ℕ) → contains xs t ≡ true → contains ys t ≡ true)
    → length xs ≤ length ys
pigeonhole [] ys d sub = omega arith
pigeonhole (x ∷ xs) ys (fresh, d) sub = omega (
  arith,
  length-without x ys (sub x (contains_self x xs)),
  pigeonhole xs (without x ys) d
      λ t h. contains-without x t ys (contains-ne x t xs fresh h) (sub t (contains-cons x t xs h)),
)

-- The recorded tags are distinct standard-header tags.
pub record IsSeen (seen : List ℕ) : Type 0 where
  distinct : Distinct seen
  headers : (t : ℕ) → contains seen t ≡ true → is_standard_header_tag t ≡ true

contains-append :
    (xs ys : List ℕ) (t : ℕ) → contains (xs ++ ys) t ≡ (contains xs t || contains ys t)
unfolding contains
contains-append [] ys t = refl
contains-append (x ∷ xs) ys t = ground (arith, contains-append xs ys t)

contains_one : (u t : ℕ) → contains (u ∷ []) t ≡ (u == t)
unfolding contains
contains_one u t = ground arith

Distinct-append :
    (xs : List ℕ) (t : ℕ) → Distinct xs → contains xs t ≡ false → Distinct (xs ++ t ∷ [])
unfolding contains
Distinct-append [] t d f = (refl, tt)
Distinct-append (x ∷ xs) t (fresh, d) f =
    (ground (arith, contains-append xs (t ∷ []) x), Distinct-append xs t d (ground arith))

headers-append :
    (xs : List ℕ) (t u : ℕ)
    → ((k : ℕ) → contains xs k ≡ true → is_standard_header_tag k ≡ true)
    → is_standard_header_tag t ≡ true
    → contains (xs ++ t ∷ []) u ≡ true
    → is_standard_header_tag u ≡ true
headers-append xs t u hs ht h = elim (Bool-cases (contains xs u)) [
  | inl old ↦ hs u old
  | inr new ↦
      subst (λ k. is_standard_header_tag k ≡ true)
        (ground (arith, contains-append xs (t ∷ []) u, contains_one t u)) ht
]

IsSeen-append :
    (seen : List ℕ) (t : ℕ)
    → IsSeen seen
    → is_standard_header_tag t ≡ true
    → contains seen t ≡ false
    → IsSeen (seen ++ t ∷ [])
IsSeen-append seen t h ht f = record {
  distinct = Distinct-append seen t h.distinct f;
  headers = λ u. headers-append seen t u h.headers ht;
}

IsSeen-length : (seen : List ℕ) → IsSeen seen → length seen ≤ header_tag_count
IsSeen-length seen h =
    pigeonhole seen standard_header_tags h.distinct (unfold is_standard_header_tag in h.headers)

-- A mark of a standard-header tag reports a repetition, or records a new tag and keeps the
-- recorded tags distinct; it never aborts.
abbrev pub Marks : List ℕ → ℕ → Mark → Type 0
Marks seen t present = contains seen t ≡ true
Marks seen t (marked seen') = (contains seen t ≡ false) × (seen' ≡ seen ++ t ∷ []) × IsSeen seen'
Marks seen t aborted = ⊥

-- On distinct recorded tags, a standard-header tag is reported as present just if it was recorded;
-- otherwise it is recorded behind the others, which stay distinct, and the array never overflows
-- into the abort.
pub check_and_mark-Marks :
    (seen : List ℕ) (t : ℕ)
    → IsSeen seen
    → is_standard_header_tag t ≡ true
    → Marks seen t (check_and_mark seen t)
unfolding check_and_mark
check_and_mark-Marks seen t h ht = elim (Bool-cases (contains seen t)) [
  | inl old ↦ rw old old
  | inr new ↦ fresh new (IsSeen-append seen t h ht new)
]
  where
    fresh : contains seen t ≡ false → IsSeen (seen ++ t ∷ []) → Marks seen t (check_and_mark seen t)
    fresh new more =
        ground (arith, new, more, IsSeen-length (seen ++ t ∷ []) more, length-append seen (t ∷ []))

pub seed_IsSeen : IsSeen (8 ∷ 9 ∷ [])
unfolding contains is_standard_header_tag
seed_IsSeen = record { distinct = (refl, (refl, tt)); headers = λ t h. ground arith }
