-- ===== src/Session/Sequence/Resets.antt =====
-- src/session/session.cpp, `handle_sequence_reset`: what a SequenceReset does to the expected number.
use fix_protocol.Prelude.{
  ℕ, zero, suc, ◌+◌, ◌≤◌, ltb, leb, Bool-cases, if_each, inr, ◌<◌, ◌≡◌, ◌≢◌, refl, ◌⊎◌, inl, true,
  false, Option, none, some, codes, arith, ℤ, to_uint64,
}
use fix_protocol.Core.Types.{Result, ok, err, Done}
use fix_protocol.Core.Tags
use fix_protocol.Core.Message.{Message, get, get_int, seq_num, poss_dup}
use fix_protocol.Store.{Contract, Fails}
use fix_protocol.Session.{Session, Env, wrap_count, report, clear_gap}
use fix_protocol.Session.Sending.Wire.{gap}
use fix_protocol.Session.Sequence.{
  checked, set_target, request_gap, refuse, is_yes, fill_to, reset_to, handle_sequence_reset,
}
use fix_protocol.Session.Sequence.Gaps.{target, refuse-target, request_gap-target}

module _ {S : Type 0} (env : Env S) (lawful : Contract env.stores) where
  -- The expected number is `n`, and no gap is open; or it stays, and one more failure was counted.
  abbrev pub Becomes : ℕ → Session S → Session S → Type 0
  Becomes n s t =
      ((target env lawful t ≡ n)
        ⊎ (target env lawful t ≡ target env lawful s) × (t.errors ≡ wrap_count (s.errors + 1)))
      × (gap t ≡ (false, 0, 0))

  -- What keeps a gap-fill to `n` from being followed.
  abbrev pub Unfit : Message → ℕ → Session S → Type 0
  Unfit m n s = (poss_dup m ≡ false) ⊎ (seq_num m ≢ target env lawful s) ⊎ (n ≤ target env lawful s)

  -- In gap-fill mode NewSeqNo is read as an unsigned 64-bit number.
  abbrev pub Fills : Message → Option ℤ → Session S → Session S → Type 0
  Fills m none s t = target env lawful t ≡ target env lawful s
  Fills m (some z) s t =
      (target env lawful t ≡ target env lawful s) × Unfit m (to_uint64 z) s
      ⊎ Becomes (to_uint64 z) s t
        × (poss_dup m ≡ true)
        × (seq_num m ≡ target env lawful s)
        × (target env lawful s < to_uint64 z)

  abbrev pub Rewinds : Option ℤ → Session S → Session S → Type 0
  Rewinds none s t = target env lawful t ≡ target env lawful s
  Rewinds (some (ℤ.negsuc _)) s t = target env lawful t ≡ target env lawful s
  Rewinds (some (ℤ.pos zero)) s t = target env lawful t ≡ target env lawful s
  Rewinds (some (ℤ.pos (suc n))) s t = Becomes (suc n) s t

  abbrev pub ResetsTo : Message → Session S → Session S → Type 0
  ResetsTo m s t =
      (is_yes (get m Tags.gap_fill_flag) ≡ true → Fills m (get_int m Tags.new_seq_no) s t)
      × (is_yes (get m Tags.gap_fill_flag) ≡ false → Rewinds (get_int m Tags.new_seq_no) s t)

  checked_set-Becomes :
      (n : ℕ) (r : S × Result Done) (s : Session S)
      → ((r.1 ≡ ok tt) × (env.stores.next_target_seq_num r.0 ≡ n)
          ⊎ Fails r.1 × (env.stores.next_target_seq_num r.0 ≡ target env lawful s))
      → Becomes n s (clear_gap (checked (codes "sequence reset: NewSeqNo persist failed") r s))
  unfolding report clear_gap
  checked_set-Becomes n (st, ok _) s (inl (_, e)) = (inl e, refl)
  checked_set-Becomes n (st, ok _) s (inr (f, _)) = absurd f
  checked_set-Becomes n (st, err e) s (inl (h, _)) = absurd (let x : ⊥ = cc in x)
  checked_set-Becomes n (st, err e) s (inr (_, same)) = (inr (same, refl), refl)

  set_target-Becomes : (n : ℕ) (s : Session S) → Becomes n s (clear_gap (set_target env n s))
  unfolding set_target
  set_target-Becomes n s =
      checked_set-Becomes n (env.stores.set_next_target_seq_num n s.store) s
        (lawful.set_target n s.store).1

  fill_to-Fills :
      (m : Message) (o : Option ℤ) (s : Session S)
      → poss_dup m ≡ true
      → seq_num m ≡ target env lawful s
      → Fills m o s (fill_to env (target env lawful s) o s)
  fill_to-Fills m none s d e = refuse-target env lawful (codes "invalid NewSeqNo") s
  fill_to-Fills m (some z) s d e =
      let n = to_uint64 z in
      if_each (Fills m (some z) s) (leb n (target env lawful s))
        (refuse env (codes "invalid NewSeqNo") s) (clear_gap (set_target env n s))
        (λ low.
          inl (
            refuse-target env lawful (codes "invalid NewSeqNo") s,
            inr (inr (ground (arith, low))),
          ))
        (λ above. inr (set_target-Becomes n s, d, e, ground (arith, above)))

  leb-suc-zero : (n : ℕ) → leb (suc n) 0 ≡ false
  leb-suc-zero n = ground arith

  reset_to-Rewinds : (o : Option ℤ) (s : Session S) → Rewinds o s (reset_to env o s)
  reset_to-Rewinds none s = refuse-target env lawful (codes "invalid NewSeqNo") s
  reset_to-Rewinds (some (ℤ.pos zero)) s = refuse-target env lawful (codes "invalid NewSeqNo") s
  reset_to-Rewinds (some (ℤ.pos (suc n))) s = rw (leb-suc-zero n) (set_target-Becomes (suc n) s)
  reset_to-Rewinds (some (ℤ.negsuc n)) s = refuse-target env lawful (codes "invalid NewSeqNo") s

  unfit-Fills :
      (m : Message) (o : Option ℤ) (s t : Session S)
      → target env lawful t ≡ target env lawful s
      → (poss_dup m ≡ false) ⊎ (seq_num m ≢ target env lawful s)
      → Fills m o s t
  unfit-Fills m none s t e h = e
  unfit-Fills m (some z) s t e (inl h) = inl (e, inl h)
  unfit-Fills m (some z) s t e (inr h) = inl (e, inr (inl h))

  fills :
      (m : Message) (s : Session S)
      → is_yes (get m Tags.gap_fill_flag) ≡ true
      → Fills m (get_int m Tags.new_seq_no) s (handle_sequence_reset env m s).0
  unfolding handle_sequence_reset
  fills m s marked =
      let o = get_int m Tags.new_seq_no in
      let expected = target env lawful s in
      let why = codes "SequenceReset GapFill requires PossDupFlag" in
      rw marked (elim (Bool-cases (poss_dup m)) [
        | inr first ↦
            rw first
              (unfit-Fills m o s (refuse env why s) (refuse-target env lawful why s) (inl first))
        | inl dup ↦ rw dup (elim (Bool-cases (ltb expected (seq_num m))) [
          | inl high ↦ rw high (
              unfit-Fills m o s (request_gap env expected s)
                (request_gap-target env lawful expected s) (inr (λ e. ground (arith, high, e))))
          | inr low ↦ rw low (elim (Bool-cases (ltb (seq_num m) expected)) [
            | inl old ↦ rw old (unfit-Fills m o s s refl (inr (λ e. ground (arith, old, e))))
            | inr same ↦ rw same (fill_to-Fills m o s dup (ground (arith, low, same)))
          ])
        ])
      ])

  -- A SequenceReset in gap-fill mode sets the expected number to its NewSeqNo, and closes the gap,
  -- just if it is a possible duplicate, has the expected number itself, and its NewSeqNo is greater,
  -- where a negative one counts as that number and 2^64; so a gap-fill never rewinds. In reset mode it
  -- does so just if its NewSeqNo is above 0. If the store fails to set the number, it stays, and the
  -- failure is counted; in every other case the number stays.
  pub handle_sequence_reset-ResetsTo :
      (m : Message) (s : Session S) → ResetsTo m s (handle_sequence_reset env m s).0
  unfolding handle_sequence_reset
  handle_sequence_reset-ResetsTo m s =
      (fills m s, λ no. rw no (reset_to-Rewinds (get_int m Tags.new_seq_no) s))
