-- ===== src/Store/File/Durable/Refresh.antt =====
-- src/store/file_store.cpp, `refresh`: the numbers stay, and the sequence file.
use fix_protocol.Prelude.{
  ◌+◌, ◌⊎◌, inl, inr, Bool-cases, Option, none, some, take, ℕ, ◌≡◌, refl, Bool, true, false, [],
  Bytes, arith, if_both, sym, ap, ◌∙◌, subst,
}
use fix_protocol.Core.Types.{Result, ok, err, Done}
use fix_protocol.Store.File.Disk.{
  Os, Disk, resize, cut, called, content, exists, is_there, read_file,
}
use fix_protocol.Store.File.Disk.Only.{Only, put_file-Only}
use fix_protocol.Store.File.Sequences.{Numbers, if_there, load_seqs}
use fix_protocol.Store.File.Lifecycle.{
  open_stream, loaded, load, truncated, repaired, rebuilt, rebuild_index, and_then, refresh,
  latched, reopen_out, reopen_in,
}
use fix_protocol.Store.{Fails}
use fix_protocol.Store.File.Sequences.Crash.{numbers_in}
use fix_protocol.Store.File.Log.{Scan, scan}
use fix_protocol.Store.File.State.{FileStore, seq_file, out_file, in_file, fails}
use fix_protocol.Store.File.Durable.{IsDurable}
use fix_protocol.Store.File.Durable.Untouched.{Untouched, seq-out, seq-in, itself}

Untouched-trans : (s t u : FileStore) → Untouched s t → Untouched t u → Untouched s u
Untouched-trans s t u a b = record {
  same_prefix = b.same_prefix ∙ a.same_prefix;
  same_sender = b.same_sender ∙ a.same_sender;
  same_target = b.same_target ∙ a.same_target;
  same_file =
      subst (λ p. u.disk.files (seq_file p) ≡ t.disk.files (seq_file p)) a.same_prefix b.same_file
      ∙ a.same_file;
}

cut-Only : (name : Bytes) (n : ℕ) (o : Option Bytes) (d : Disk) → Only name d (cut name n o d).0
cut-Only name n none d k ne = refl
cut-Only name n (some s) d k ne = put_file-Only name (some (take n s)) d k ne

resize-Only : (os : Os) (name : Bytes) (n : ℕ) (d : Disk) → Only name d (resize os name n d).0
unfolding resize
resize-Only os name n d k ne = ground (arith, cut-Only name n (d.files name) (called d) k ne)

pub open_stream-Only : (os : Os) (name : Bytes) (d : Disk) → Only name d (open_stream os name d).0
unfolding open_stream
open_stream-Only os name d k ne =
    ground (arith, put_file-Only name (some (content (d.files name))) (called d) k ne)

module _ (os : Os) where
  truncated-Untouched :
      (s : FileStore) (r : Disk × Bool)
      → r.0.files (seq_file s.prefix) ≡ s.disk.files (seq_file s.prefix)
      → Untouched s (truncated s r).0
  truncated-Untouched s (d, true) e = record {
    same_prefix = refl;
    same_sender = refl;
    same_target = refl;
    same_file = e;
  }
  truncated-Untouched s (d, false) e = record {
    same_prefix = refl;
    same_sender = refl;
    same_target = refl;
    same_file = e;
  }

  repaired-Untouched : (s : FileStore) (found : Scan) → Untouched s (repaired os s found).0
  repaired-Untouched s found =
      let t = record s { out_index = found.index } in
      let d = resize os (out_file s.prefix) found.last_good s.disk in
      let same : Untouched s t = record {
        same_prefix = refl;
        same_sender = refl;
        same_target = refl;
        same_file = refl;
      } in
      if_both (λ (r : FileStore × Result Done). Untouched s r.0) found.torn (truncated t d)
        (t, ok tt)
        (Untouched-trans s t (truncated t d).0 same (
          truncated-Untouched t d (
            resize-Only os (out_file s.prefix) found.last_good s.disk (seq_file s.prefix)
              (seq-out s.prefix))))
        same

  read_over :
      (s : FileStore) (d : Disk) → d.files ≡ s.disk.files → Untouched s (record s { disk = d })
  read_over s d e = record {
    same_prefix = refl;
    same_sender = refl;
    same_target = refl;
    same_file = ap (λ f. f (seq_file s.prefix)) e;
  }

  rebuilt-Untouched :
      (s : FileStore) (d : Disk) (o : Option Bytes)
      → d.files ≡ s.disk.files
      → Untouched s (rebuilt os s (d, o)).0
  rebuilt-Untouched s d none e = read_over s d e
  rebuilt-Untouched s d (some log) e =
      let t = record s { disk = d } in
      let found = scan 0 [] log [] in
      Untouched-trans s t (repaired os t found).0 (read_over s d e) (repaired-Untouched t found)

  reopen_out-Untouched : (s : FileStore) → Untouched s (reopen_out os s)
  unfolding reopen_out
  reopen_out-Untouched s =
      let r = open_stream os (out_file s.prefix) s.disk in
      if_both (Untouched s) (latched s.out_stream) (record s { disk = r.0; out_stream = r.1 }) s
        (record {
          same_prefix = refl;
          same_sender = refl;
          same_target = refl;
          same_file =
              open_stream-Only os (out_file s.prefix) s.disk (seq_file s.prefix) (seq-out s.prefix);
        })
        (itself os s)

  reopen_in-Untouched : (s : FileStore) → Untouched s (reopen_in os s)
  unfolding reopen_in
  reopen_in-Untouched s =
      let r = open_stream os (in_file s.prefix) s.disk in
      if_both (Untouched s) (latched s.in_stream) (record s { disk = r.0; in_stream = r.1 }) s
        (record {
          same_prefix = refl;
          same_sender = refl;
          same_target = refl;
          same_file =
              open_stream-Only os (in_file s.prefix) s.disk (seq_file s.prefix) (seq-in s.prefix);
        })
        (itself os s)

  abbrev again : FileStore → FileStore × Result Done
  again u = (reopen_in os (reopen_out os u), ok tt)

  -- What is loaded is what the file stands for, or nothing is.
  Loads : Bytes → Disk → Disk × Result Numbers → Type 0
  Loads name d r = (r.0.files ≡ d.files) × (Fails r.1 ⊎ (r.1 ≡ numbers_in (d.files name)))

  there-Loads :
      (name : Bytes) (d : Disk) (o : Option Bytes)
      → d.files name ≡ o
      → Loads name d (if_there os name (called d, some (is_there o)))
  unfolding Loads
  there-Loads name d none h = (refl, inr (ap numbers_in (sym h)))
  there-Loads name d (some text) h = elim (Bool-cases (os.fails (d.calls + 1))) [
    | inl fails ↦ unfold read_file in rw fails (refl, inl tt)
    | inr fine ↦ unfold read_file in rw (fine, h) (refl, inr refl)
  ]

  load_seqs-Loads : (name : Bytes) (d : Disk) → Loads name d (load_seqs os name d)
  unfolding load_seqs exists read_file Loads
  load_seqs-Loads name d = elim (Bool-cases (os.fails d.calls)) [
    | inl fails ↦ rw fails (refl, inl tt)
    | inr fine ↦ rw fine (there-Loads name d (d.files name) refl)
  ]

  loaded-Untouched :
      (s : FileStore) (r : Disk × Result Numbers)
      → IsDurable s
      → Loads (seq_file s.prefix) s.disk r
      → Untouched s (loaded s r).0
  unfolding Loads
  loaded-Untouched s (d, err e) h l = record {
    same_prefix = refl;
    same_sender = refl;
    same_target = refl;
    same_file = ap (λ f. f (seq_file s.prefix)) l.0;
  }
  loaded-Untouched s (d, ok n) h (e, inl f) = absurd f
  loaded-Untouched s (d, ok (a, b)) h (e, inr l) =
      let same : Path (Result Numbers) (ok (a, b)) (ok (s.sender_seq, s.target_seq)) = l ∙ h.same in
      record {
        same_prefix = refl;
        same_sender = cc;
        same_target = cc;
        same_file = ap (λ f. f (seq_file s.prefix)) e;
      }

  and_then-Untouched :
      (s : FileStore) (r : FileStore × Result Done) (next : FileStore → FileStore × Result Done)
      → Untouched s r.0
      → ((t : FileStore) → Untouched t (next t).0)
      → Untouched s (and_then r next).0
  and_then-Untouched s (t, ok _) next u k = Untouched-trans s t (next t).0 u (k t)
  and_then-Untouched s (t, err _) next u k = u

  pub refresh-Untouched : (s : FileStore) → IsDurable s → Untouched s (refresh os s).0
  unfolding refresh load rebuild_index read_file
  refresh-Untouched s h =
      and_then-Untouched s (load os s) (λ t. and_then (rebuild_index os t) again)
        (loaded-Untouched s (load_seqs os (seq_file s.prefix) s.disk) h
          (load_seqs-Loads (seq_file s.prefix) s.disk))
        λ t.
          and_then-Untouched t (rebuild_index os t) again
            (rebuilt-Untouched t (called t.disk) (read_file os (out_file t.prefix) t.disk).1 refl)
            λ u.
              Untouched-trans u (reopen_out os u) (reopen_in os (reopen_out os u))
                (reopen_out-Untouched u) (reopen_in-Untouched (reopen_out os u))
