-- ===== src/Store/File/Sequences/Succeeds.antt =====
-- src/store/file_store.cpp, `persist_seqs`: nothing but a system call makes it fail.
use fix_protocol.Prelude.{
  ℕ, zero, suc, ◌<◌, ◌≤◌, ◌≡◌, refl, Bool, true, false, Option, none, some, [], ◌∷◌, Bytes, length,
  length-drop, drop, arith,
}
use fix_protocol.Core.Types.{ok}
use fix_protocol.Store.File.Disk.{
  Os, Disk, called, sync, create, write, wrote, write_all, moved, rename,
}
use fix_protocol.Store.File.Sequences.{
  Numbers, seqs_text, tmp_name, renamed, closed_tmp, synced_tmp, written_tmp, created_tmp,
  persist_seqs,
}
use fix_protocol.Store.File.Sequences.Crash.{Calm}
use fix_protocol.Store.File.Disk.Only.{create-empty}
use fix_protocol.Store.File.Disk.Written.{write_all-Complete}

-- A write takes one byte at least.
abbrev pub Takes : Os → Type 0
Takes os = (k n : ℕ) → 1 ≤ os.written k (suc n)

-- A write that took something.
Goes : Disk × Option ℕ → Type 0
Goes (d, none) = ⊥
Goes (d, some n) = 1 ≤ n

wrote-done :
    (others : Bytes → Disk → Disk × Bool) (s : Bytes) (r : Disk × Option ℕ)
    → Goes r
    → ((n : ℕ) (e : Disk) → (others (drop (suc n) s) e).1 ≡ true)
    → (wrote others s r).1 ≡ true
unfolding Goes
wrote-done others s (d, none) g h = absurd g
wrote-done others s (d, some zero) g h = absurd (omega arith)
wrote-done others s (d, some (suc n)) g h = h n d

module _ (os : Os) (calm : Calm os) (takes : Takes os) where
  write-Goes : (name : Bytes) (c : ℕ) (cs : Bytes) (d : Disk) → Goes (write os name (c ∷ cs) d)
  unfolding write Goes
  write-Goes name c cs d = rw (calm d.calls) (omega (arith, takes d.calls (length cs)))

  -- The rounds of `write_all`, on any fuel above the number of bytes.
  write_all-done :
      (name : Bytes) (f : ℕ) (s : Bytes) (d : Disk)
      → length s < f
      → (write_all os name f s d).1 ≡ true
  unfolding write_all
  write_all-done name zero s d h = absurd (omega arith)
  write_all-done name (suc f) [] d h = refl
  write_all-done name (suc f) (c ∷ cs) d h =
      wrote-done (write_all os name f) (c ∷ cs) (write os name (c ∷ cs) d) (write-Goes name c cs d)
        λ n e.
          write_all-done name f (drop (suc n) (c ∷ cs)) e (omega (arith, length-drop {0} n cs, h))

  renamed-done : (tmp : Bytes) (r : Disk × Bool) → r.1 ≡ true → (renamed os tmp r).1 ≡ ok tt
  renamed-done tmp (e, true) h = refl
  renamed-done tmp (e, false) h = cc

  moved-done : (a b s : Bytes) (o : Option Bytes) (d : Disk) → o ≡ some s → (moved a b o d).1 ≡ true
  moved-done a b s none d h = cc
  moved-done a b s (some x) d h = refl

  rename-done : (a b s : Bytes) (d : Disk) → d.files a ≡ some s → (rename os a b d).1 ≡ true
  unfolding rename
  rename-done a b s d h = rw (calm d.calls) (moved-done a b s (d.files a) (called d) h)

  sync-done : (d : Disk) → (sync os d).1 ≡ true
  unfolding sync
  sync-done d = rw (calm d.calls) refl

  closed_tmp-done :
      (tmp name s : Bytes) (r : Disk × Bool)
      → r.1 ≡ true
      → r.0.files tmp ≡ some s
      → (closed_tmp os tmp name r).1 ≡ ok tt
  closed_tmp-done tmp name s (e, false) h full = cc
  closed_tmp-done tmp name s (e, true) h full =
      renamed-done tmp (rename os tmp name e) (rename-done tmp name s e full)

  synced_tmp-done :
      (tmp name s : Bytes) (r : Disk × Bool)
      → r.1 ≡ true
      → r.0.files tmp ≡ some s
      → (synced_tmp os tmp name r).1 ≡ ok tt
  unfolding sync
  synced_tmp-done tmp name s (e, false) h full = cc
  synced_tmp-done tmp name s (e, true) h full =
      closed_tmp-done tmp name s (sync os e) (sync-done e) full

  written_tmp-done :
      (tmp name s : Bytes) (r : Disk × Bool)
      → r.1 ≡ true
      → r.0.files tmp ≡ some s
      → (written_tmp os tmp name r).1 ≡ ok tt
  unfolding sync
  written_tmp-done tmp name s (e, false) h full = cc
  written_tmp-done tmp name s (e, true) h full =
      synced_tmp-done tmp name s (sync os e) (sync-done e) full

  created_tmp-done :
      (tmp name text : Bytes) (r : Disk × Bool)
      → r.1 ≡ true
      → r.0.files tmp ≡ some []
      → (created_tmp os tmp name text r).1 ≡ ok tt
  created_tmp-done tmp name text (e, false) h fresh = cc
  created_tmp-done tmp name text (e, true) h fresh =
      let done = write_all-done tmp (suc (length text)) text e (omega arith) in
      written_tmp-done tmp name text (write_all os tmp (suc (length text)) text e) done
        (write_all-Complete tmp os (suc (length text)) [] text e fresh done)

  create-done : (name : Bytes) (d : Disk) → (create os name d).1 ≡ true
  unfolding create
  create-done name d = rw (calm d.calls) refl

  -- If no system call fails and each write takes one byte at least, `persist_seqs` succeeds: the
  -- loop of `write_all` ends, however few bytes a write takes.
  pub persist_seqs-done :
      (name : Bytes) (n : Numbers) (d : Disk) → (persist_seqs os name n d).1 ≡ ok tt
  unfolding persist_seqs
  persist_seqs-done name n d =
      let done = create-done (tmp_name name) d in
      created_tmp-done (tmp_name name) name (seqs_text n) (create os (tmp_name name) d) done
        (create-empty os (tmp_name name) d done)
