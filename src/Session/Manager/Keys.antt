-- ===== src/Session/Manager/Keys.antt =====
-- src/session/session_manager.cpp, `make_key`: which sessions have a key of their own.
use fix_protocol.Prelude.{
  ◌≡◌, ◌≢◌, refl, Bool, true, [], ◌∷◌, ◌++◌, Bytes, not, ◌&&◌, ◌==◌, arith, All, sym, ap, ◌∙◌,
}
use fix_protocol.Core.Types.{
  SessionId, FixVersion, fix_4_0, fix_4_1, fix_4_2, fix_4_3, fix_4_4, fix_5_0, fix_5_0_sp1,
  fix_5_0_sp2, fixt_1_1, unknown, version_text, parse_version, parse_version-version_text,
}
use fix_protocol.Session.Manager.{make_key}

-- No colon among the bytes.
abbrev pub IsPlain : Bytes → Type 0
IsPlain = All (λ c. c ≢ b':')

plain-cancel :
    (a b r s : Bytes)
    → IsPlain a
    → IsPlain b
    → a ++ (b':' ∷ r) ≡ b ++ (b':' ∷ s)
    → (a ≡ b) × (r ≡ s)
plain-cancel [] [] r s ha hb e = (refl, ground (arith, e))
plain-cancel [] (y ∷ b) r s ha hb e = absurd (hb.0 (ground (arith, e)))
plain-cancel (x ∷ a) [] r s ha hb e = absurd (ha.0 (ground (arith, e)))
plain-cancel (x ∷ a) (y ∷ b) r s ha hb e =
    let (same, rest) = plain-cancel a b r s ha.1 hb.1 (ground (arith, e)) in
    (ground (arith, e, same), rest)

-- The same as a test.
plain : Bytes → Bool
plain [] = true
plain (c ∷ cs) = not (c == b':') && plain cs

plain-IsPlain : (s : Bytes) → plain s ≡ true → IsPlain s
unfolding plain
plain-IsPlain [] h = tt
plain-IsPlain (c ∷ cs) h = ((λ e. ground (arith, h, e)), plain-IsPlain cs (ground (arith, h)))

version_text-plain : (v : FixVersion) → plain (version_text v) ≡ true
unfolding plain version_text
version_text-plain fix_4_0 = refl
version_text-plain fix_4_1 = refl
version_text-plain fix_4_2 = refl
version_text-plain fix_4_3 = refl
version_text-plain fix_4_4 = refl
version_text-plain fix_5_0 = refl
version_text-plain fix_5_0_sp1 = refl
version_text-plain fix_5_0_sp2 = refl
version_text-plain fixt_1_1 = refl
version_text-plain unknown = refl

version_text-IsPlain : (v : FixVersion) → IsPlain (version_text v)
version_text-IsPlain v = plain-IsPlain (version_text v) (version_text-plain v)

-- Two sessions whose CompIDs have no colon have the same key only if they have the same CompIDs, the
-- same version and the same qualifier.
pub make_key-distinct :
    (a b : SessionId)
    → IsPlain a.sender_comp_id
    → IsPlain a.target_comp_id
    → IsPlain b.sender_comp_id
    → IsPlain b.target_comp_id
    → make_key a ≡ make_key b
    → (a.sender_comp_id ≡ b.sender_comp_id)
      × (a.target_comp_id ≡ b.target_comp_id)
      × (a.version ≡ b.version)
      × (a.qualifier ≡ b.qualifier)
unfolding make_key
make_key-distinct a b sa ta sb tb e =
    let (sender, rest) = plain-cancel a.sender_comp_id b.sender_comp_id _ _ sa sb e in
    let (target, more) = plain-cancel a.target_comp_id b.target_comp_id _ _ ta tb rest in
    let (text, qualifier) =
      plain-cancel (version_text a.version) (version_text b.version) _ _
        (version_text-IsPlain a.version) (version_text-IsPlain b.version) more in
    (
      sender,
      target,
      sym (parse_version-version_text a.version)
          ∙ ap parse_version text
          ∙ parse_version-version_text b.version,
      qualifier,
    )
