-- ===== src/Store/File/Recovery.antt =====
-- src/store/file_store.cpp: a log that a write cut short left, and the next start.
use fix_protocol.Prelude.{
  ℕ, ◌+◌, ◌≡◌, refl, ◌⊎◌, inl, inr, Bool, true, false, not, Option, some, List, [], ◌∷◌, ◌++◌,
  Bytes, arith, if_each, equal, none, length, take, take_append, All, sym, ap, ◌∙◌, subst,
  append-nil,
}
use fix_protocol.Core.Types.{Result, ok, err, Done}
use fix_protocol.Store.SortedMap.{Entry, entry, assign}
use fix_protocol.Store.File.Disk.{Os, Disk, called, put_file, content, read_file, resize, cut}
use fix_protocol.Store.File.Disk.Only.{put_file-Only, files-put_file}
use fix_protocol.Store.File.Log.Lines.{
  IsLine, IsStorable, stopped, log_text, index_all, scan-log_text,
}
use fix_protocol.Store.File.Log.Reads.{Reads, Reads-index_all, assign_all}
use fix_protocol.Store.File.State.{Stream, FileStore, out_file, in_file}
use fix_protocol.Store.File.Frames.{store_outbound}
use fix_protocol.Store.File.Lifecycle.{
  truncated, repaired, rebuild_index, and_then, open_stream, open_logs, index_and_open,
}
use fix_protocol.Store.File.Mirror.{Mirrors, assign_all-concat}
use fix_protocol.Store.File.Torn.{Leaves, store_outbound-After}

storable-lines : (es : List Entry) → All IsStorable es → All (λ (e : Entry). IsLine e.value) es
storable-lines [] h = tt
storable-lines (e ∷ es) h = (h.0.2, storable-lines es h.1)

-- The log is whole, and the index is that of its records.
record Indexed (es : List Entry) (t : FileStore) : Type 0 where
  on_disk : t.disk.files (out_file t.prefix) ≡ some (log_text es)
  index : t.out_index ≡ index_all 0 es []

out-in : (prefix : Bytes) → equal (out_file prefix) (in_file prefix) ≡ false
unfolding equal
out-in [] = refl
out-in (c ∷ prefix) = ground (arith, out-in prefix)

-- What a step leads to, if it succeeds.
abbrev IfOk : (FileStore → Type 0) → FileStore × Result Done → Type 0
IfOk P r = r.1 ≡ ok tt → P r.0

module _ (os : Os) where
  truncated-if :
      (P : FileStore → Type 0) (s : FileStore) (r : Disk × Bool)
      → (r.1 ≡ true → P (record s { disk = r.0 }))
      → IfOk P (truncated s r)
  truncated-if P s (d, true) h e = h refl
  truncated-if P s (d, false) h e = cc

  cut-log :
      (name : Bytes) (k : ℕ) (o : Option Bytes) (d : Disk) (log : Bytes)
      → o ≡ some log
      → (cut name k o d).0.files name ≡ some (take k log)
  cut-log name k none d log e = cc
  cut-log name k (some s) d log e =
      files-put_file name (some (take k s)) d ∙ ap (λ o. some (take k (content o))) e

  resize-log :
      (name : Bytes) (k : ℕ) (d : Disk) (log : Bytes)
      → d.files name ≡ some log
      → (resize os name k d).1 ≡ true
      → (resize os name k d).0.files name ≡ some (take k log)
  unfolding resize
  resize-log name k d log e =
      if_each (λ (r : Disk × Bool). r.1 ≡ true → r.0.files name ≡ some (take k log))
        (not (os.fails d.calls)) (cut name k (d.files name) (called d)) (called d, false)
        (λ _ _. cut-log name k (d.files name) (called d) log e) (λ _ h. cc)

  -- An opened log has what it had, and the stream stands at its end.
  record Opened (name text : Bytes) (d : Disk) (r : Disk × Stream) : Type 0 where
    kept : r.0.files name ≡ some text
    others : (k : Bytes) → equal k name ≡ false → r.0.files k ≡ d.files k
    at_end : r.1.good ≡ true → r.1.place ≡ length text

  open_stream-others :
      (name : Bytes) (d : Disk) (k : Bytes)
      → equal k name ≡ false
      → (open_stream os name d).0.files k ≡ d.files k
  unfolding open_stream
  open_stream-others name d k ne =
      ground (arith, put_file-Only name (some (content (d.files name))) (called d) k ne)

  open_stream-Opened :
      (name text : Bytes) (d : Disk)
      → d.files name ≡ some text
      → Opened name text d (open_stream os name d)
  unfolding open_stream
  open_stream-Opened name text d e =
      let now = content (d.files name) in
      let same : now ≡ text = ap content e in
      record {
        kept =
            if_each (λ (r : Disk × Stream). r.0.files name ≡ some text) (not (os.fails d.calls))
              (
                put_file name (some now) (called d),
                record { is_open = true; good = true; place = length now },
              )
              (called d, record { is_open = false; good = false; place = 0 })
              (λ _. files-put_file name (some now) (called d) ∙ ap some same) (λ _. e);
        others = open_stream-others name d;
        at_end =
            if_each (λ (r : Disk × Stream). r.1.good ≡ true → r.1.place ≡ length text)
              (not (os.fails d.calls))
              (
                put_file name (some now) (called d),
                record { is_open = true; good = true; place = length now },
              )
              (called d, record { is_open = false; good = false; place = 0 })
              (λ _ _. ap length same) (λ _ h. cc);
      }

  module _ (es : List Entry) (all : All IsStorable es) where
    cut_whole : (torn : Bytes) → take (0 + length (log_text es)) (log_text es ++ torn) ≡ log_text es
    cut_whole torn = take_append (0 + length (log_text es)) (log_text es) torn (omega arith)

    repaired-Indexed :
        (s : FileStore) (torn : Bytes)
        → s.disk.files (out_file s.prefix) ≡ some (log_text es ++ torn)
        → IfOk
            (Indexed es)
            (repaired os s (stopped (index_all 0 es []) (0 + length (log_text es)) torn))
    unfolding equal
    repaired-Indexed s [] e h = record {
      on_disk = e ∙ ap some (append-nil (log_text es));
      index = refl;
    }
    repaired-Indexed s (c ∷ torn) e h =
        let name = out_file s.prefix in
        let good = 0 + length (log_text es) in
        truncated-if (Indexed es) (record s { out_index = index_all 0 es [] })
          (resize os name good s.disk)
          (λ done. record {
            on_disk =
                resize-log name good s.disk (log_text es ++ (c ∷ torn)) e done
                ∙ ap some (cut_whole (c ∷ torn));
            index = refl;
          })
          h

    rebuild_index-Indexed :
        (s : FileStore)
        → Leaves (s.disk.files (out_file s.prefix)) es
        → os.fails s.disk.calls ≡ false
        → IfOk (Indexed es) (rebuild_index os s)
    unfolding rebuild_index read_file
    rebuild_index-Indexed s left calm =
        let t = record s { disk = called s.disk } in
        rw (calm, left.there)
          (subst (λ x. IfOk (Indexed es) (repaired os t x))
            (sym (scan-log_text 0 es left.torn [] all left.short))
            (repaired-Indexed t left.torn left.there))

    index_all-Reads : Reads (log_text es) (index_all 0 es []) (assign_all es [])
    index_all-Reads = Reads-index_all [] [] [] es tt (storable-lines es all)

    open_logs-Mirrors : (t : FileStore) → Indexed es t → Mirrors (open_logs os t) (assign_all es [])
    unfolding open_logs
    open_logs-Mirrors t h =
        let out = open_stream-Opened (out_file t.prefix) (log_text es) t.disk h.on_disk in
        let d = (open_stream os (out_file t.prefix) t.disk).0 in
        record {
          es = es;
          storable = all;
          kept = refl;
          on_disk =
              open_stream-others (in_file t.prefix) d (out_file t.prefix) (out-in t.prefix)
              ∙ out.kept;
          reads =
              subst (λ ix. Reads (log_text es) ix (assign_all es [])) (sym h.index) index_all-Reads;
          aligned = out.at_end;
        }

    and_then-Mirrors :
        (r : FileStore × Result Done)
        → IfOk (Indexed es) r
        → IfOk (λ t. Mirrors t (assign_all es [])) (and_then r λ t. (open_logs os t, ok tt))
    and_then-Mirrors (t, ok _) h e = open_logs-Mirrors t (h refl)
    and_then-Mirrors (t, err x) h e = cc

    -- A start that can read a log with what an interrupted write left behind its records keeps the
    -- frames of these records, each under its number the last one stored, and no other.
    pub index_and_open-Mirrors :
        (s : FileStore)
        → Leaves (s.disk.files (out_file s.prefix)) es
        → os.fails s.disk.calls ≡ false
        → (index_and_open os s).1 ≡ ok tt
        → Mirrors (index_and_open os s).0 (assign_all es [])
    index_and_open-Mirrors s left calm =
        and_then-Mirrors (rebuild_index os s) (rebuild_index-Indexed s left calm)

-- Whichever system calls of a `store_outbound` of a frame without a newline, under a number from 1 on
-- and below 2^64, fail, and whenever the process is killed in it, the
-- next start that can read the log and that succeeds keeps the frames that were kept before, with
-- the new one or without it: no frame is lost and none is kept in part.
pub restart-Mirrors :
    (os next : Os) (n : ℕ) (raw : Bytes) (s t : FileStore) (m : List Entry)
    → IsStorable (entry n raw)
    → Mirrors s m
    → t.prefix ≡ s.prefix
    → t.disk.files ≡ (store_outbound os n raw s).0.disk.files
    → next.fails t.disk.calls ≡ false
    → (index_and_open next t).1 ≡ ok tt
    → Mirrors (index_and_open next t).0 m ⊎ Mirrors (index_and_open next t).0 (assign n raw m)
restart-Mirrors os next n raw s t m storable before prefix files calm done =
    let after = store_outbound-After n raw storable before.es before.storable os s before.on_disk in
    let file =
      ap (λ f. f (out_file t.prefix)) files
      ∙ ap (λ p. (store_outbound os n raw s).0.disk.files (out_file p)) prefix in
    elim after.1 [
      | inl left ↦ inl (
          subst (Mirrors (index_and_open next t).0) before.kept (
            index_and_open-Mirrors next before.es before.storable t
              (subst (λ f. Leaves f before.es) (sym file) left) calm done))
      | inr left ↦
          let more = before.es ++ entry n raw ∷ [] in
          inr (
            subst (Mirrors (index_and_open next t).0)
              (assign_all-concat before.es [] (entry n raw) ∙ ap (assign n raw) before.kept)
              (index_and_open-Mirrors next more left.storable t
                (subst (λ f. Leaves f more) (sym file) left) calm done))
    ]
