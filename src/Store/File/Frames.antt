-- ===== src/Store/File/Frames.antt =====
-- src/store/file_store.cpp: the message logs, `store_outbound`, `store_inbound`, `get_messages`.
use fix_protocol.Prelude.{
  ℕ, suc, Bool, true, false, not, ◌||◌, Option, none, some, List, Bytes, if◌then◌else◌, ◌==◌,
  length,
}
use fix_protocol.Core.Types.{Result, ok, err, Done, store_error}
use fix_protocol.Store.SortedMap.{Entry, assign, lower_bound, up_to, last_key}
use fix_protocol.Store.File.Disk.{Os, Disk, sync, content, write_all, read_file}
use fix_protocol.Store.File.Log.{record_text, read_frames}
use fix_protocol.Store.File.State.{Stream, FileStore, out_file, in_file, fails}

-- `fsync_path`: open, fsync and close.
abbrev pub fsync_opened : Os → Disk × Bool → Disk × Bool
fsync_opened os (d, false) = (d, false)
fsync_opened os (d, true) = let (e, done) = sync os d in ((sync os e).0, done)

unfoldable pub fsync_path : Os → Disk → Disk × Bool
fsync_path os d = fsync_opened os (sync os d)

-- The stream behind what was written, or in the failed state.
abbrev pub appended : Bytes → Stream → Disk × Bool → Stream
appended name st (d, true) = record st { place = length (content (d.files name)) }
appended name st (d, false) = record st { good = false }

-- The output of a record and its flush. The buffer of the stream goes out by writes in a loop.
unfoldable pub append : Os → Bytes → Bytes → Stream → Disk → Disk × Stream
append os name text st d =
    let w = write_all os name (suc (length text)) text d in (w.0, appended name st w)

-- The fsync, where it is asked for.
unfoldable pub maybe_fsync : Os → FileStore → FileStore × Bool
maybe_fsync os s =
    let (d, done) = fsync_path os s.disk in
    if s.fsync_messages then (record s { disk = d }, done) else (s, true)

abbrev pub indexed : ℕ → ℕ → FileStore × Bool → FileStore × Result Done
indexed seq pos (s, true) = (record s { out_index = assign seq pos s.out_index }, ok tt)
indexed seq pos (s, false) = fails s

unfoldable pub store_outbound : Os → ℕ → Bytes → FileStore → FileStore × Result Done
store_outbound os seq raw s =
    let (d, st) = append os (out_file s.prefix) (record_text seq raw) s.out_stream s.disk in
    let t = record s { disk = d; out_stream = st } in
    if s.closed || not s.out_stream.is_open || not s.out_stream.good
    then fails s
    else if not st.good
    then fails t
    else indexed seq s.out_stream.place (maybe_fsync os t)

abbrev pub done_or_fails : FileStore × Bool → FileStore × Result Done
done_or_fails (s, true) = (s, ok tt)
done_or_fails (s, false) = fails s

unfoldable pub store_inbound : Os → ℕ → Bytes → FileStore → FileStore × Result Done
store_inbound os seq raw s =
    let (d, st) = append os (in_file s.prefix) (record_text seq raw) s.in_stream s.disk in
    let t = record s { disk = d; in_stream = st } in
    if s.closed || not s.in_stream.is_open || not s.in_stream.good
    then fails s
    else if not st.good
    then fails t
    else done_or_fails (maybe_fsync os t)

abbrev pub frames_of : FileStore → ℕ → ℕ → Option Bytes → Result (List Entry)
frames_of s first last none = err store_error
frames_of s first last (some log) =
    ok (read_frames log (up_to last (lower_bound first s.out_index)))

-- The calls of the callback. The file is opened for the time of the call.
unfoldable pub get_messages : Os → ℕ → ℕ → FileStore → Result (List Entry)
get_messages os first last s =
    frames_of s first (if last == 0 then last_key s.out_index else last)
      (read_file os (out_file s.prefix) s.disk).1
