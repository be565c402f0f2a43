-- ===== src/Store/File/Sequences/Atomic.antt =====
-- src/store/file_store.cpp, `persist_seqs`: the sequence file is replaced whole or not at all.
use fix_protocol.Prelude.{
  ℕ, suc, ◌≡◌, refl, ◌⊎◌, inl, inr, Bool, true, false, some, [], ◌∷◌, ◌++◌, Bytes, codes, equal,
  length, arith, ap, ◌∙◌,
}
use fix_protocol.Core.Types.{Result, ok, Done}
use fix_protocol.Store.{Fails}
use fix_protocol.Store.File.Disk.{Os, Disk, sync, create, remove, write_all, rename}
use fix_protocol.Store.File.Disk.Only.{
  Only, Only-trans, create-Only, create-empty, remove-Only, Renames, rename-Renames,
}
use fix_protocol.Store.File.Disk.Written.{write_all-Only, write_all-Complete}
use fix_protocol.Store.File.Sequences.{
  Numbers, seqs_text, tmp_name, refused, synced_dir, renamed, closed_tmp, discard_tmp, synced_tmp,
  written_tmp, created_tmp, persist_seqs,
}

-- The file has the new numbers in full, or what it had, and then an error is returned; no other
-- file changed but the temporary one.
pub record Persists (name : Bytes) (n : Numbers) (d : Disk) (r : Disk × Result Done) : Type 0 where
  pub outcome :
      (r.1 ≡ ok tt) × (r.0.files name ≡ some (seqs_text n))
      ⊎ Fails r.1 × (r.0.files name ≡ d.files name)
  pub others :
      (k : Bytes) → equal k name ≡ false → equal k (tmp_name name) ≡ false → r.0.files k ≡ d.files k

equal-longer : (s : Bytes) (c : ℕ) (t : Bytes) → equal s (s ++ (c ∷ t)) ≡ false
unfolding equal
equal-longer [] c t = refl
equal-longer (x ∷ s) c t = ground (arith, equal-longer s c t)

pub tmp_name-other : (name : Bytes) → equal name (tmp_name name) ≡ false
unfolding tmp_name
tmp_name-other name = equal-longer name b'.' (codes "tmp")

module _ (os : Os) (name : Bytes) (n : Numbers) (d : Disk) where
  abbrev tmp : Bytes
  tmp = tmp_name name

  refused-Persists : (e : Disk) → Only tmp d e → Persists name n d (refused e)
  refused-Persists e o = record {
    outcome = inr (tt, o name (tmp_name-other name));
    others = λ k a b. o k b;
  }

  removed-Persists : (e : Disk) → Only tmp d e → Persists name n d (refused (remove os tmp e))
  removed-Persists e o =
      refused-Persists (remove os tmp e)
        (Only-trans tmp d e (remove os tmp e) o (remove-Only os tmp e))

  discard_tmp-Persists : (e : Disk) → Only tmp d e → Persists name n d (discard_tmp os tmp e)
  unfolding sync
  discard_tmp-Persists e o = removed-Persists (sync os e).0 o

  synced_dir-files : (r : Disk × Bool) → (synced_dir os r).files ≡ r.0.files
  unfolding sync
  synced_dir-files (e, false) = refl
  synced_dir-files (e, true) = refl

  renamed-Persists :
      (e : Disk) (r : Disk × Bool)
      → Only tmp d e
      → e.files tmp ≡ some (seqs_text n)
      → Renames tmp name e r
      → Persists name n d (renamed os tmp r)
  unfolding sync
  renamed-Persists e (x, false) o full m =
      removed-Persists x (λ k ne. ap (λ f. f k) (m.refused refl) ∙ o k ne)
  renamed-Persists e (x, true) o full m =
      let same = synced_dir-files (sync os x) in
      record {
        outcome = inl (refl, ap (λ f. f name) same ∙ m.done refl ∙ full);
        others = λ k a b. ap (λ f. f k) same ∙ m.others k b a ∙ o k b;
      }

  closed_tmp-Persists :
      (r : Disk × Bool)
      → Only tmp d r.0
      → r.0.files tmp ≡ some (seqs_text n)
      → Persists name n d (closed_tmp os tmp name r)
  closed_tmp-Persists (e, false) o full = removed-Persists e o
  closed_tmp-Persists (e, true) o full =
      renamed-Persists e (rename os tmp name e) o full
        (rename-Renames os tmp name e (tmp_name-other name))

  synced_tmp-Persists :
      (r : Disk × Bool)
      → Only tmp d r.0
      → r.0.files tmp ≡ some (seqs_text n)
      → Persists name n d (synced_tmp os tmp name r)
  unfolding sync
  synced_tmp-Persists (e, false) o full = discard_tmp-Persists e o
  synced_tmp-Persists (e, true) o full = closed_tmp-Persists (sync os e) o full

  written_tmp-Persists :
      (r : Disk × Bool)
      → Only tmp d r.0
      → (r.1 ≡ true → r.0.files tmp ≡ some (seqs_text n))
      → Persists name n d (written_tmp os tmp name r)
  unfolding sync
  written_tmp-Persists (e, false) o full = discard_tmp-Persists e o
  written_tmp-Persists (e, true) o full = synced_tmp-Persists (sync os e) o (full refl)

  created_tmp-Persists :
      (r : Disk × Bool)
      → Only tmp d r.0
      → (r.1 ≡ true → r.0.files tmp ≡ some [])
      → Persists name n d (created_tmp os tmp name (seqs_text n) r)
  created_tmp-Persists (e, false) o fresh = refused-Persists e o
  created_tmp-Persists (e, true) o fresh =
      let text = seqs_text n in
      let w = write_all os tmp (suc (length text)) text e in
      written_tmp-Persists w
        (Only-trans tmp d e w.0 o (write_all-Only tmp os (suc (length text)) text e))
        (write_all-Complete tmp os (suc (length text)) [] text e (fresh refl))

  -- Whichever of its system calls fail, and whenever the process is killed, `persist_seqs` leaves
  -- the sequence file with the new numbers in full, or as it was; it reports success in the first
  -- case and an error in the second, and changes no other file but the temporary one.
  pub persist_seqs-Persists : Persists name n d (persist_seqs os name n d)
  unfolding persist_seqs
  persist_seqs-Persists =
      created_tmp-Persists (create os tmp d) (create-Only os tmp d) (create-empty os tmp d)
