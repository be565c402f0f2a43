-- ===== src/Store/File/Mirror.antt =====
-- src/store/file_store.cpp: the frames that a file store keeps, against those of a memory store.
use fix_protocol.Prelude.{
  ℕ, suc, ◌≡◌, refl, Bool, true, false, not, ◌||◌, some, List, [], ◌∷◌, ◌++◌, Bytes, arith,
  if◌then◌else◌, ◌==◌, if_each, length, All, All-append, sym, ap, ◌∙◌, subst, append_assoc,
  append-nil,
}
use fix_protocol.Core.Types.{Result, ok, Done}
use fix_protocol.Store.SortedMap.{Entry, entry, assign, lower_bound, up_to, last_key}
use fix_protocol.Store.Memory.{MemoryStore}
use fix_protocol.Store.Memory as Memory
use fix_protocol.Store.File.Disk.{Os, Disk, sync, content, write_all, read_file}
use fix_protocol.Store.File.Disk.Written.{write_all-Complete}
use fix_protocol.Store.File.Log.{record_text}
use fix_protocol.Store.File.Log.Lines.{IsStorable, log_text}
use fix_protocol.Store.File.Log.Reads.{
  At-end, Reads, Reads-append, Reads-read_frames, Reads-assign, Reads-lower_bound, Reads-up_to,
  Reads-last_key, assign_all,
}
use fix_protocol.Store.File.State.{Stream, FileStore, out_file, fails}
use fix_protocol.Store.File.Frames.{
  fsync_opened, fsync_path, maybe_fsync, append, appended, indexed, store_outbound, get_messages,
}

-- The store keeps the frames `m`: its log has records that leave just these, its index leads to
-- them, and its stream stands at the end of the log.
pub record Mirrors (s : FileStore) (m : List Entry) : Type 0 where
  pub es : List Entry
  pub storable : All IsStorable es
  pub kept : assign_all es [] ≡ m
  pub on_disk : s.disk.files (out_file s.prefix) ≡ some (log_text es)
  pub reads : Reads (log_text es) s.out_index m
  pub aligned : s.out_stream.good ≡ true → s.out_stream.place ≡ length (log_text es)

pub log_text-concat :
    (es : List Entry) (e : Entry)
    → log_text (es ++ e ∷ []) ≡ log_text es ++ record_text e.seq e.value
unfolding log_text
log_text-concat [] e = append-nil (record_text e.seq e.value)
log_text-concat (d ∷ es) e =
    ap (λ l. record_text d.seq d.value ++ l) (log_text-concat es e)
    ∙ sym (append_assoc (record_text d.seq d.value) (log_text es) (record_text e.seq e.value))

pub assign_all-concat :
    (es m : List Entry) (e : Entry)
    → assign_all (es ++ e ∷ []) m ≡ assign e.seq e.value (assign_all es m)
unfolding assign_all
assign_all-concat [] m e = refl
assign_all-concat (d ∷ es) m e = assign_all-concat es (assign d.seq d.value m) e

pub fsync_opened-files : (os : Os) (r : Disk × Bool) → (fsync_opened os r).0.files ≡ r.0.files
unfolding sync
fsync_opened-files os (d, true) = refl
fsync_opened-files os (d, false) = refl

-- An fsync leaves all but the count of the calls.
pub record Synced (s t : FileStore) : Type 0 where
  pub same_prefix : t.prefix ≡ s.prefix
  pub same_stream : t.out_stream ≡ s.out_stream
  pub same_index : t.out_index ≡ s.out_index
  pub same_files : t.disk.files ≡ s.disk.files

pub maybe_fsync-Synced : (os : Os) (s : FileStore) → Synced s (maybe_fsync os s).0
unfolding maybe_fsync fsync_path sync
maybe_fsync-Synced os s =
    if_each (λ (r : FileStore × Bool). Synced s r.0) s.fsync_messages
      (record s { disk = (fsync_path os s.disk).0 }, (fsync_path os s.disk).1) (s, true)
      (λ _. record {
        same_prefix = refl;
        same_stream = refl;
        same_index = refl;
        same_files = fsync_opened-files os (sync os s.disk);
      })
      (λ _. record { same_prefix = refl; same_stream = refl; same_index = refl; same_files = refl })

appended-good :
    (name : Bytes) (st : Stream) (w : Disk × Bool)
    → (appended name st w).good ≡ true
    → (w.1 ≡ true)
      × (st.good ≡ true)
      × ((appended name st w).place ≡ length (content (w.0.files name)))
appended-good name st (d, true) h = (refl, h, refl)
appended-good name st (d, false) h = cc

module _ (n : ℕ) (raw : Bytes) (storable : IsStorable (entry n raw)) (m : List Entry) where
  -- What was kept, if the operation succeeded.
  Keeps : FileStore × Result Done → Type 0
  Keeps r = r.1 ≡ ok tt → Mirrors r.0 (assign n raw m)

  fails-Keeps : (s : FileStore) → Keeps (fails s)
  unfolding Keeps
  fails-Keeps s h = cc

  -- A store with the record behind its log; the index does not have it yet.
  record Behind (s : FileStore) (before : Mirrors s m) (t : FileStore) : Type 0 where
    same_prefix : t.prefix ≡ s.prefix
    same_index : t.out_index ≡ s.out_index
    longer : t.disk.files (out_file s.prefix) ≡ some (log_text before.es ++ record_text n raw)
    at_end : t.out_stream.place ≡ length (log_text before.es ++ record_text n raw)

  indexed-Keeps :
      (s : FileStore) (before : Mirrors s m) (r : FileStore × Bool)
      → s.out_stream.good ≡ true
      → Behind s before r.0
      → Keeps (indexed n s.out_stream.place r)
  unfolding Keeps
  indexed-Keeps s before (t, false) good b h = cc
  indexed-Keeps s before (t, true) good b h =
      let log = log_text before.es in
      let text = record_text n raw in
      let e = entry n raw in
      let whole = log_text-concat before.es e in
      let ix =
        Reads-assign (log ++ text) n (length log) raw s.out_index m
          (Reads-append log text s.out_index m before.reads) (At-end log n raw storable.2) in
      record {
        es = before.es ++ e ∷ [];
        storable = All-append IsStorable before.es (e ∷ []) before.storable (storable, tt);
        kept = assign_all-concat before.es [] e ∙ ap (assign n raw) before.kept;
        on_disk =
            ap (λ p. t.disk.files (out_file p)) b.same_prefix ∙ b.longer ∙ ap some (sym whole);
        reads =
            subst (λ l. Reads l (assign n s.out_stream.place t.out_index) (assign n raw m))
              (sym whole)
              (subst (λ x. Reads (log ++ text) (assign n s.out_stream.place x) (assign n raw m))
                (sym b.same_index)
                (subst (λ k. Reads (log ++ text) (assign n k s.out_index) (assign n raw m))
                  (sym (before.aligned good)) ix));
        aligned = λ _. b.at_end ∙ ap length (sym whole);
      }

  -- Whichever system calls fail, an outbound frame without a newline, under a number from 1 on and
  -- below 2^64, that is reported to be stored
  -- is kept by the file store as a memory store keeps it, in place of any before it under its
  -- number, with the other frames as they were.
  pub store_outbound-Mirrors :
      (os : Os) (s : FileStore)
      → Mirrors s m
      → (store_outbound os n raw s).1 ≡ ok tt
      → Mirrors (store_outbound os n raw s).0 (assign n raw m)
  unfolding store_outbound Keeps append
  store_outbound-Mirrors os s before =
      let name = out_file s.prefix in
      let text = record_text n raw in
      let w = write_all os name (suc (length text)) text s.disk in
      let st = appended name s.out_stream w in
      let t = record s { disk = w.0; out_stream = st } in
      let kept = indexed n s.out_stream.place (maybe_fsync os t) in
      if_each Keeps (s.closed || not s.out_stream.is_open || not s.out_stream.good) (fails s)
        (if not st.good then fails t else kept) (λ _. fails-Keeps s)
        λ _.
          if_each Keeps (not st.good) (fails t) kept (λ _. fails-Keeps t)
            λ h.
              let (done, good, place) = appended-good name s.out_stream w (ground (arith, h)) in
              let full =
                write_all-Complete name os (suc (length text)) (log_text before.es) text s.disk
                  before.on_disk done in
              let synced = maybe_fsync-Synced os t in
              indexed-Keeps s before (maybe_fsync os t) good (record {
                same_prefix = synced.same_prefix;
                same_index = synced.same_index;
                longer = ap (λ f. f name) synced.same_files ∙ full;
                at_end =
                    ap (λ (x : Stream). x.place) synced.same_stream
                    ∙ place
                    ∙ ap (λ f. length (content f)) full;
              })

-- A replay that can open the log is given the frames that a memory store with the same frames
-- gives: those from `first` to `last`, a `last` of 0 being the greatest number stored.
pub get_messages-Mirrors :
    (os : Os) (first last : ℕ) (s : FileStore) (b : MemoryStore)
    → Mirrors s b.outbound
    → os.fails s.disk.calls ≡ false
    → get_messages os first last s ≡ Memory.get_messages first last b
unfolding get_messages read_file Memory.get_messages
get_messages-Mirrors os first last s b h calm =
    let log = log_text h.es in
    let last_number = Reads-last_key log s.out_index b.outbound h.reads in
    let top = if last == 0 then last_key b.outbound else last in
    let walk =
      Reads-up_to log top (lower_bound first s.out_index) (lower_bound first b.outbound)
        (Reads-lower_bound log first s.out_index b.outbound h.reads) in
    rw (calm, h.on_disk)
      (rw last_number (
        ap ok (
          Reads-read_frames log (up_to top (lower_bound first s.out_index))
            (up_to top (lower_bound first b.outbound)) walk)))
