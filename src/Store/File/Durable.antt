-- ===== src/Store/File/Durable.antt =====
-- src/store/file_store.cpp: the sequence file has the numbers of the store.
pub mod Run
pub mod Untouched
pub mod Refresh
use fix_protocol.Prelude.{
  ℕ, suc, ◌+◌, ◌-◌, ◌^◌, ◌≤◌, ◌<◌, ◌≡◌, refl, ◌⊎◌, inl, inr, Bool, true, false, not, ◌||◌, Option,
  some, [], ◌∷◌, ◌++◌, Bytes, arith, if◌then◌else◌, if_each, if_both, List, All, leb, ◌==◌, equal,
  codes, length, sym, ap, ◌∙◌, subst,
}
use fix_protocol.Core.Types.{Result, ok, err, Done}
use fix_protocol.Store.{Fails, wrap_seq}
use fix_protocol.Store.File.Disk.{Os, Disk, sync, write_all}
use fix_protocol.Store.File.Disk.Written.{write_all-Only}
use fix_protocol.Store.File.Sequences.{Numbers, validated, seqs_text, persist_seqs}
use fix_protocol.Store.File.Sequences.Text.{parse_seqs-seqs_text}
use fix_protocol.Store.File.Sequences.Atomic.{Persists, persist_seqs-Persists}
use fix_protocol.Store.File.Sequences.Crash.{numbers_in}
use fix_protocol.Store.File.Log.{record_text}
use fix_protocol.Store.File.State.{
  FileStore, seq_file, out_file, in_file, max_seq, fails, persist, or_restore_sender,
  or_restore_target, set_next_sender_seq_num, set_next_target_seq_num, incr_sender_seq_num,
  incr_target_seq_num, next_sender_seq_num_incr, advance_next_target_seq_num,
}
use fix_protocol.Store.File.Frames.{
  fsync_opened, fsync_path, maybe_fsync, append, appended, indexed, done_or_fails, store_outbound,
  store_inbound,
}

abbrev pub IsSeq : ℕ → Type 0
IsSeq n = (1 ≤ n) × (n < 2 ^ 64)

-- What the sequence file of a store stands for.
abbrev pub saved : FileStore → Result Numbers
saved s = numbers_in (s.disk.files (seq_file s.prefix))

-- A start would read the numbers that the store has.
pub record IsDurable (s : FileStore) : Type 0 where
  pub same : saved s ≡ ok (s.sender_seq, s.target_seq)
  pub sender : IsSeq s.sender_seq
  pub target : IsSeq s.target_seq

pub saved-text :
    (s : FileStore)
    → IsSeq s.sender_seq
    → IsSeq s.target_seq
    → s.disk.files (seq_file s.prefix) ≡ some (seqs_text (s.sender_seq, s.target_seq))
    → IsDurable s
saved-text s hs ht e = record {
  same =
      ap numbers_in e
      ∙ ap validated (parse_seqs-seqs_text s.sender_seq s.target_seq hs.0 hs.1 ht.0 ht.1);
  sender = hs;
  target = ht;
}

-- The outcome of persisting the numbers of `s`.
abbrev pub Persisted : FileStore → FileStore × Result Done → Type 0
Persisted s r =
    (r.1 ≡ ok tt)
      × (r.0.disk.files (seq_file r.0.prefix) ≡ some (seqs_text (r.0.sender_seq, r.0.target_seq)))
    ⊎ Fails r.1 × (saved r.0 ≡ saved s)

pub persist-Persisted : (os : Os) (s : FileStore) → Persisted s (persist os s)
unfolding persist
persist-Persisted os s =
    elim (persist_seqs-Persists os (seq_file s.prefix) (s.sender_seq, s.target_seq)
      s.disk).outcome [ inl h ↦ inl h | inr (failed, same) ↦ inr (failed, ap numbers_in same) ]

module _ (s : FileStore) (before : IsDurable s) where
  restore_sender-IsDurable :
      {A : Type 0} (a : A) (r : FileStore × Result Done)
      → IsSeq r.0.sender_seq
      → r.0.target_seq ≡ s.target_seq
      → Persisted s r
      → IsDurable (or_restore_sender a s.sender_seq r).0
  restore_sender-IsDurable a (t, ok _) n same (inl (_, full)) =
      saved-text t n (subst IsSeq (sym same) before.target) full
  restore_sender-IsDurable a (t, ok _) n same (inr (f, _)) = absurd f
  restore_sender-IsDurable a (t, err e) n same (inl (f, _)) = absurd (let x : ⊥ = cc in x)
  restore_sender-IsDurable a (t, err e) n same (inr (_, old)) = record {
    same = old ∙ before.same ∙ ap (λ k. ok (s.sender_seq, k)) (sym same);
    sender = before.sender;
    target = subst IsSeq (sym same) before.target;
  }

  restore_target-IsDurable :
      (r : FileStore × Result Done)
      → IsSeq r.0.target_seq
      → r.0.sender_seq ≡ s.sender_seq
      → Persisted s r
      → IsDurable (or_restore_target s.target_seq r).0
  restore_target-IsDurable (t, ok _) n same (inl (_, full)) =
      saved-text t (subst IsSeq (sym same) before.sender) n full
  restore_target-IsDurable (t, ok _) n same (inr (f, _)) = absurd f
  restore_target-IsDurable (t, err e) n same (inl (f, _)) = absurd (let x : ⊥ = cc in x)
  restore_target-IsDurable (t, err e) n same (inr (_, old)) = record {
    same = old ∙ before.same ∙ ap (λ k. ok (k, s.target_seq)) (sym same);
    sender = subst IsSeq (sym same) before.sender;
    target = before.target;
  }

  module _ (os : Os) where
    pub set_sender-IsDurable : (n : ℕ) → IsSeq n → IsDurable (set_next_sender_seq_num os n s).0
    unfolding set_next_sender_seq_num persist
    set_sender-IsDurable n h =
        let t = record s { sender_seq = n } in
        if_each (λ (r : FileStore × Result Done). IsDurable r.0) s.closed (fails s)
          (or_restore_sender tt s.sender_seq (persist os t)) (λ _. before)
          (λ _. restore_sender-IsDurable tt (persist os t) h refl (persist-Persisted os t))

    pub set_target-IsDurable : (n : ℕ) → IsSeq n → IsDurable (set_next_target_seq_num os n s).0
    unfolding set_next_target_seq_num persist
    set_target-IsDurable n h =
        let t = record s { target_seq = n } in
        if_each (λ (r : FileStore × Result Done). IsDurable r.0) s.closed (fails s)
          (or_restore_target s.target_seq (persist os t)) (λ _. before)
          (λ _. restore_target-IsDurable (persist os t) h refl (persist-Persisted os t))

    -- The number behind one that is not the last.
    next-IsSeq : (n : ℕ) → IsSeq n → (n == max_seq) ≡ false → IsSeq (wrap_seq (n + 1))
    next-IsSeq n h ne = ground arith

    next_sender-IsDurable :
        {A : Type 0} (a : A)
        → let t = record s { sender_seq = wrap_seq (s.sender_seq + 1) } in
          IsDurable
            (if s.sender_seq == max_seq
              then fails {A = A} s
              else or_restore_sender a s.sender_seq (persist os t)).0
    unfolding persist
    next_sender-IsDurable {A} a =
        let t = record s { sender_seq = wrap_seq (s.sender_seq + 1) } in
        if_each (λ (r : FileStore × Result A). IsDurable r.0) (s.sender_seq == max_seq) (fails s)
          (or_restore_sender a s.sender_seq (persist os t)) (λ _. before)
          λ ne.
            restore_sender-IsDurable a (persist os t) (next-IsSeq s.sender_seq before.sender ne)
              refl (persist-Persisted os t)

    pub incr_sender-IsDurable : IsDurable (incr_sender_seq_num os s).0
    unfolding incr_sender_seq_num
    incr_sender-IsDurable =
        let t = record s { sender_seq = wrap_seq (s.sender_seq + 1) } in
        if_each (λ (r : FileStore × Result Done). IsDurable r.0) s.closed (fails s)
          (if s.sender_seq == max_seq
            then fails s
            else or_restore_sender tt s.sender_seq (persist os t))
          (λ _. before) (λ _. next_sender-IsDurable tt)

    pub claim-IsDurable : IsDurable (next_sender_seq_num_incr os s).0
    unfolding next_sender_seq_num_incr
    claim-IsDurable =
        let t = record s { sender_seq = wrap_seq (s.sender_seq + 1) } in
        if_each (λ (r : FileStore × Result ℕ). IsDurable r.0) s.closed (fails s)
          (if s.sender_seq == max_seq
            then fails s
            else or_restore_sender s.sender_seq s.sender_seq (persist os t))
          (λ _. before) (λ _. next_sender-IsDurable s.sender_seq)

    pub incr_target-IsDurable : IsDurable (incr_target_seq_num os s).0
    unfolding incr_target_seq_num persist
    incr_target-IsDurable =
        let t = record s { target_seq = wrap_seq (s.target_seq + 1) } in
        let set = or_restore_target s.target_seq (persist os t) in
        let P = λ (r : FileStore × Result Done). IsDurable r.0 in
        if_each P s.closed (fails s) (if s.target_seq == max_seq then fails s else set)
          (λ _. before)
          λ _.
            if_each P (s.target_seq == max_seq) (fails s) set (λ _. before)
              λ ne.
                restore_target-IsDurable (persist os t) (next-IsSeq s.target_seq before.target ne)
                  refl (persist-Persisted os t)

    pub advance-IsDurable : (n : ℕ) → n < 2 ^ 64 → IsDurable (advance_next_target_seq_num os n s).0
    unfolding advance_next_target_seq_num persist
    advance-IsDurable n h =
        let t = record s { target_seq = n } in
        let set = or_restore_target s.target_seq (persist os t) in
        let P = λ (r : FileStore × Result Done). IsDurable r.0 in
        if_each P s.closed (fails s) (if leb n s.target_seq then (s, ok tt) else set) (λ _. before)
          λ _.
            if_each P (leb n s.target_seq) (s, ok tt) set (λ _. before)
              λ above.
                restore_target-IsDurable (persist os t)
                  (let x : s.target_seq < n = ground (arith, above) in omega arith, h) refl
                  (persist-Persisted os t)
