-- ===== src/Store/File/Name/Distinct.antt =====
-- src/store/file_store.cpp, `make_prefix`: short components are told apart.
use fix_protocol.Prelude.{
  ℕ, ◌<◌, ◌≤◌, ◌≡◌, refl, [], ◌∷◌, ◌++◌, Bytes, arith, length, append_assoc, append-nil, sym, ap,
  ◌∙◌, codes, All, equal, take_all, ltb-false,
}
use fix_protocol.Core.Types.{SessionId}
use fix_protocol.Store.File.Name.{
  escape_byte, escape, sanitize_component, component, qualified, make_prefix,
}

abbrev IsByte : ℕ → Type 0
IsByte c = c < 256

-- What may stand behind a component: the end, or the separator.
abbrev Ends : Bytes → Type 0
Ends [] = Unit
Ends (c ∷ _) = c ≡ b'~'

escape_byte-cancel :
    (x y : ℕ) (r s : Bytes)
    → IsByte x
    → IsByte y
    → escape_byte x ++ r ≡ escape_byte y ++ s
    → (x ≡ y) × (r ≡ s)
unfolding escape_byte
escape_byte-cancel x y r s bx by e = ground arith

Ends-escape_byte : (y : ℕ) (r s : Bytes) → Ends r → r ≡ escape_byte y ++ s → ⊥
unfolding escape_byte
Ends-escape_byte y [] s h e = ground arith
Ends-escape_byte y (c ∷ r) s h e = ground arith

escape-cancel :
    (xs ys r s : Bytes)
    → All IsByte xs
    → All IsByte ys
    → Ends r
    → Ends s
    → escape xs ++ r ≡ escape ys ++ s
    → (xs ≡ ys) × (r ≡ s)
unfolding escape
escape-cancel [] [] r s bx by hr hs e = (refl, e)
escape-cancel [] (y ∷ ys) r s bx by hr hs e =
    absurd
      (Ends-escape_byte y r (escape ys ++ s) hr (e ∙ append_assoc (escape_byte y) (escape ys) s))
escape-cancel (x ∷ xs) [] r s bx by hr hs e =
    absurd (
      Ends-escape_byte x s (escape xs ++ r) hs (sym e ∙ append_assoc (escape_byte x) (escape xs) r))
escape-cancel (x ∷ xs) (y ∷ ys) r s bx by hr hs e =
    let f =
      sym (append_assoc (escape_byte x) (escape xs) r)
      ∙ e
      ∙ append_assoc (escape_byte y) (escape ys) s in
    let (same, rest) = escape_byte-cancel x y (escape xs ++ r) (escape ys ++ s) bx.0 by.0 f in
    let (others, tails) = escape-cancel xs ys r s bx.1 by.1 hr hs rest in
    (ground (arith, same, others), tails)

abbrev pub IsShort : Bytes → Type 0
IsShort raw = (length raw ≤ 32) × All IsByte raw

component-short : (c : ℕ) (cs : Bytes) → IsShort (c ∷ cs) → component (c ∷ cs) ≡ escape (c ∷ cs)
unfolding sanitize_component equal
component-short c cs h =
    rw (ltb-false 32 (length (c ∷ cs)) h.0) (ap escape (take_all 32 (c ∷ cs) h.0))

-- The empty component has a name that no other has.
empty-escape : (y : ℕ) (ys r s : Bytes) → Ends r → codes "%0" ++ r ≡ escape (y ∷ ys) ++ s → ⊥
unfolding escape escape_byte
empty-escape y ys [] s h e = ground arith
empty-escape y ys (c ∷ r) s h e = ground arith

component-cancel :
    (a b r s : Bytes)
    → IsShort a
    → IsShort b
    → Ends r
    → Ends s
    → component a ++ r ≡ component b ++ s
    → (a ≡ b) × (r ≡ s)
unfolding sanitize_component equal
component-cancel [] [] r s ha hb hr hs e = (refl, ground arith)
component-cancel [] (y ∷ ys) r s ha hb hr hs e =
    absurd (empty-escape y ys r s hr (e ∙ ap (λ n. n ++ s) (component-short y ys hb)))
component-cancel (x ∷ xs) [] r s ha hb hr hs e =
    absurd (empty-escape x xs s r hs (sym e ∙ ap (λ n. n ++ r) (component-short x xs ha)))
component-cancel (x ∷ xs) (y ∷ ys) r s ha hb hr hs e =
    escape-cancel (x ∷ xs) (y ∷ ys) r s ha.1 hb.1 hr hs (
      ap (λ n. n ++ r) (sym (component-short x xs ha))
      ∙ e
      ∙ ap (λ n. n ++ s) (component-short y ys hb))

-- A component with nothing behind it.
component_inj : (a b : Bytes) → IsShort a → IsShort b → component a ≡ component b → a ≡ b
component_inj a b ha hb e =
    (component-cancel a b [] [] ha hb tt tt
      (append-nil (component a) ∙ e ∙ sym (append-nil (component b)))).0

qualified-Ends : (q : Bytes) → Ends (qualified q)
unfolding equal
qualified-Ends [] = tt
qualified-Ends (c ∷ q) = refl

qualified_inj : (a b : Bytes) → IsShort a → IsShort b → qualified a ≡ qualified b → a ≡ b
unfolding equal
qualified_inj [] [] ha hb e = refl
qualified_inj [] (d ∷ b) ha hb e = cc
qualified_inj (c ∷ a) [] ha hb e = cc
qualified_inj (c ∷ a) (d ∷ b) ha hb e = component_inj (c ∷ a) (d ∷ b) ha hb (ground (arith, e))

-- The CompIDs and the qualifier are short enough to stand in a file name in full.
pub record IsShortId (sid : SessionId) : Type 0 where
  pub sender : IsShort sid.sender_comp_id
  pub target : IsShort sid.target_comp_id
  pub qualifier : IsShort sid.qualifier

-- Two sessions whose CompIDs and qualifiers have at most 32 bytes have the same file names only if
-- they have the same CompIDs and the same qualifier.
pub make_prefix-distinct :
    (a b : SessionId)
    → IsShortId a
    → IsShortId b
    → make_prefix a ≡ make_prefix b
    → (a.sender_comp_id ≡ b.sender_comp_id)
      × (a.target_comp_id ≡ b.target_comp_id)
      × (a.qualifier ≡ b.qualifier)
unfolding make_prefix
make_prefix-distinct a b ha hb e =
    let (sender, rest) =
      component-cancel a.sender_comp_id b.sender_comp_id
        (b'~' ∷ (component a.target_comp_id ++ qualified a.qualifier))
        (b'~' ∷ (component b.target_comp_id ++ qualified b.qualifier)) ha.sender hb.sender refl refl
        e in
    let (target, end) =
      component-cancel a.target_comp_id b.target_comp_id (qualified a.qualifier)
        (qualified b.qualifier) ha.target hb.target (qualified-Ends a.qualifier)
        (qualified-Ends b.qualifier) (ground (arith, rest)) in
    (sender, target, qualified_inj a.qualifier b.qualifier ha.qualifier hb.qualifier end)
