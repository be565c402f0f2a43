-- ===== src/Store/File/Lifecycle.antt =====
-- src/store/file_store.cpp: opening a store, repairing its log, `reset`, `refresh` and `close`.
use fix_protocol.Prelude.{
  Bool, true, false, not, ◌&&◌, Option, none, some, [], Bytes, if◌then◌else◌, length,
}
use fix_protocol.Core.Types.{Result, ok, err, Done, store_error, SessionId}
use fix_protocol.Store.File.Disk.{
  Os, Disk, sync, called, answers, put_file, content, rename, resize, exists, read_file,
}
use fix_protocol.Store.File.Sequences.{Numbers, load_seqs}
use fix_protocol.Store.File.Log.{Scan, scan}
use fix_protocol.Store.File.Name.{make_prefix, legacy_prefix}
use fix_protocol.Store.File.State.{Stream, FileStore, seq_file, out_file, in_file, fails, persist}
use fix_protocol.Store.File.Frames.{fsync_path}

abbrev pub shut : Stream
shut = record { is_open = false; good = true; place = 0 }

-- The constructor and `open` of a `std::ofstream` that appends: the file is made if it is not
-- there, and the place is its end.
unfoldable pub open_stream : Os → Bytes → Disk → Disk × Stream
open_stream os name d =
    let text = content (d.files name) in
    if answers os d
    then (
      put_file name (some text) (called d),
      record { is_open = true; good = true; place = length text },
    )
    else (called d, record { is_open = false; good = false; place = 0 })

unfoldable pub open_logs : Os → FileStore → FileStore
open_logs os s =
    let (d, out) = open_stream os (out_file s.prefix) s.disk in
    let (e, inn) = open_stream os (in_file s.prefix) d in
    record s { disk = e; out_stream = out; in_stream = inn }

-- `load_seqs` of a store: the numbers are committed only if the file has them.
abbrev pub loaded : FileStore → Disk × Result Numbers → FileStore × Result Done
loaded s (d, ok (sender, target)) =
    (record s { disk = d; sender_seq = sender; target_seq = target }, ok tt)
loaded s (d, err e) = (record s { disk = d }, err e)

unfoldable pub load : Os → FileStore → FileStore × Result Done
load os s = loaded s (load_seqs os (seq_file s.prefix) s.disk)

abbrev pub truncated : FileStore → Disk × Bool → FileStore × Result Done
truncated s (d, true) = (record s { disk = d }, ok tt)
truncated s (d, false) = fails (record s { disk = d })

-- The end of `rebuild_index`: a torn tail is cut off.
abbrev pub repaired : Os → FileStore → Scan → FileStore × Result Done
repaired os s found =
    let t = record s { out_index = found.index } in
    if found.torn
    then truncated t (resize os (out_file s.prefix) found.last_good s.disk)
    else (t, ok tt)

abbrev pub rebuilt : Os → FileStore → Disk × Option Bytes → FileStore × Result Done
rebuilt os s (d, none) = (record s { disk = d }, ok tt)
rebuilt os s (d, some log) = repaired os (record s { disk = d }) (scan 0 [] log [])

unfoldable pub rebuild_index : Os → FileStore → FileStore × Result Done
rebuild_index os s = rebuilt os s (read_file os (out_file s.prefix) s.disk)

-- A step behind one that may have failed.
abbrev pub and_then :
    FileStore × Result Done → (FileStore → FileStore × Result Done) → FileStore × Result Done
and_then (s, ok _) next = next s
and_then (s, err e) next = (s, err e)

abbrev pub empty_if_there : Os → Bytes → Disk × Option Bool → Disk × Bool
empty_if_there os name (d, none) = (d, false)
empty_if_there os name (d, some false) = (d, true)
empty_if_there os name (d, some true) = resize os name 0 d

-- A log is emptied, if it is there.
unfoldable pub empty_log : Os → Bytes → FileStore → FileStore × Result Done
empty_log os name s = truncated s (empty_if_there os name (exists os name s.disk))

unfoldable pub reset : Os → FileStore → FileStore × Result Done
reset os s =
    let cleared = record s {
      sender_seq = 1;
      target_seq = 1;
      out_index = [];
      out_stream = shut;
      in_stream = shut;
    } in
    if s.closed
    then fails s
    else and_then (empty_log os (out_file s.prefix) cleared) λ t.
      and_then (empty_log os (in_file s.prefix) t)
        λ u. and_then (persist os u) λ v. (open_logs os v, ok tt)

-- A stream that is open and in the failed state is opened again.
abbrev pub latched : Stream → Bool
latched st = st.is_open && not st.good

unfoldable pub reopen_out : Os → FileStore → FileStore
reopen_out os s =
    let (d, st) = open_stream os (out_file s.prefix) s.disk in
    if latched s.out_stream then record s { disk = d; out_stream = st } else s

unfoldable pub reopen_in : Os → FileStore → FileStore
reopen_in os s =
    let (d, st) = open_stream os (in_file s.prefix) s.disk in
    if latched s.in_stream then record s { disk = d; in_stream = st } else s

unfoldable pub refresh : Os → FileStore → FileStore × Result Done
refresh os s =
    and_then (load os s)
      λ t. and_then (rebuild_index os t) λ u. (reopen_in os (reopen_out os u), ok tt)

-- `first_error`, while `close` runs.
abbrev pub has_value : Result Done → Bool
has_value (ok _) = true
has_value (err _) = false

-- `if (auto r = …; !r && !first_error) first_error = r`, for a call that succeeded or not.
unfoldable pub also : Bool → Result Done → Result Done
also done first = if not done && not (has_value first) then err store_error else first

-- A log is flushed, synced and closed.
unfoldable pub close_log : Os → Stream → Disk × Result Done → Disk × Result Done
close_log os st (d, first) =
    let (e, done) = fsync_path os d in
    if not st.is_open
    then (d, first)
    else if not st.good
    then (d, err store_error)
    else (e, also done first)

abbrev pub close_with : FileStore × Result Done → Result Done → FileStore × Result Done
close_with (s, r) first = (record s { closed = true }, also (has_value r) first)

abbrev pub shut_log : Stream → Stream
shut_log st = if st.is_open then shut else st

unfoldable pub close : Os → FileStore → FileStore × Result Done
close os s =
    let (d, first) = close_log os s.in_stream (close_log os s.out_stream (s.disk, ok tt)) in
    let t = record s {
      disk = d;
      out_stream = shut_log s.out_stream;
      in_stream = shut_log s.in_stream;
    } in
    if s.closed then (s, ok tt) else close_with (persist os t) first

-- The outcome of a move that is needed.
abbrev pub required : Disk × Bool → Disk × Result Done
required (d, true) = (d, ok tt)
required (d, false) = (d, err store_error)

abbrev pub move_source : Os → Bytes → Bytes → Disk × Option Bool → Disk × Result Done
move_source os from to (d, some true) = required (rename os from to d)
move_source os from to (d, some false) = (d, ok tt)
move_source os from to (d, none) = (d, ok tt)

abbrev pub move_unless_there : Os → Bytes → Bytes → Disk × Option Bool → Disk × Result Done
move_unless_there os from to (d, some false) = move_source os from to (exists os from d)
move_unless_there os from to (d, some true) = (d, ok tt)
move_unless_there os from to (d, none) = (d, ok tt)

-- One round of the loop over the logs.
unfoldable pub move_log : Os → Bytes → Bytes → Disk → Disk × Result Done
move_log os from to d = move_unless_there os from to (exists os to d)

abbrev pub on_disk : Disk × Result Done → (Disk → Disk × Result Done) → Disk × Result Done
on_disk (d, ok _) next = next d
on_disk (d, err e) next = (d, err e)

abbrev pub legacy_there : Os → Bytes → Bytes → Disk × Option Bool → Disk × Result Done
legacy_there os legacy prefix (d, some true) =
    on_disk (move_log os (out_file legacy) (out_file prefix) d) λ e.
      on_disk (move_log os (in_file legacy) (in_file prefix) e)
        λ f. required (rename os (seq_file legacy) (seq_file prefix) f)
legacy_there os legacy prefix (d, some false) = (d, ok tt)
legacy_there os legacy prefix (d, none) = (d, ok tt)

abbrev pub unless_new : Os → Bytes → Bytes → Disk × Option Bool → Disk × Result Done
unless_new os legacy prefix (d, some false) =
    legacy_there os legacy prefix (exists os (seq_file legacy) d)
unless_new os legacy prefix (d, some true) = (d, ok tt)
unless_new os legacy prefix (d, none) = (d, ok tt)

unfoldable pub migrate_legacy_files : Os → Bytes → Bytes → Disk → Disk × Result Done
migrate_legacy_files os legacy prefix d =
    unless_new os legacy prefix (exists os (seq_file prefix) d)

abbrev pub fresh : Bytes → Bool → Disk → FileStore
fresh prefix fsync d = record {
  prefix = prefix;
  fsync_messages = fsync;
  sender_seq = 1;
  target_seq = 1;
  out_stream = shut;
  in_stream = shut;
  out_index = [];
  closed = false;
  disk = d;
}

-- The end of the constructor.
abbrev pub index_and_open : Os → FileStore → FileStore × Result Done
index_and_open os s = and_then (rebuild_index os s) λ t. (open_logs os t, ok tt)

abbrev pub migrated : Bytes → Bool → Disk × Result Done → FileStore × Result Done
migrated prefix fsync (d, r) = (fresh prefix fsync d, r)

abbrev pub made : Os → SessionId → Bool → Disk × Bool → FileStore × Result Done
made os sid fsync (d, false) = fails (fresh (make_prefix sid) fsync d)
made os sid fsync (d, true) =
    let prefix = make_prefix sid in
    and_then (migrated prefix fsync (migrate_legacy_files os (legacy_prefix sid) prefix d))
      λ s. and_then (load os s) (index_and_open os)

-- `FileStore::open`: the first call makes the directory. On an error there is no store, but what was
-- done to the disk is done.
unfoldable pub open_store : Os → SessionId → Bool → Disk → FileStore × Result Done
open_store os sid fsync d = made os sid fsync (sync os d)
