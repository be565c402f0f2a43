-- ===== src/Store/File/State.antt =====
-- src/store/file_store.cpp: the state of a `FileStore` and its sequence numbers.
use fix_protocol.Prelude.{ℕ, ◌+◌, ◌-◌, ◌^◌, Bool, ◌++◌, Bytes, codes, if◌then◌else◌, leb, ◌==◌}
use fix_protocol.Core.Types.{Result, ok, err, Done, store_error}
use fix_protocol.Store.{wrap_seq}
use fix_protocol.Store.File.Disk.{Os, Disk}
use fix_protocol.Store.File.Log.{Index}
use fix_protocol.Store.File.Sequences.{persist_seqs}

-- A `std::ofstream` that appends: whether it is open, whether it is not in the failed state, and
-- the place that `tellp` reports.
pub record Stream : Type 0 where
  pub is_open : Bool
  pub good : Bool
  pub place : ℕ

-- The three paths are those of the prefix. The disk is that of the store directory.
pub record FileStore : Type 0 where
  pub prefix : Bytes
  pub fsync_messages : Bool
  pub sender_seq : ℕ
  pub target_seq : ℕ
  pub out_stream : Stream
  pub in_stream : Stream
  pub out_index : Index
  pub closed : Bool
  pub disk : Disk

abbrev pub seq_file : Bytes → Bytes
seq_file prefix = prefix ++ codes ".seqnums"

abbrev pub out_file : Bytes → Bytes
out_file prefix = prefix ++ codes ".out.log"

abbrev pub in_file : Bytes → Bytes
in_file prefix = prefix ++ codes ".in.log"

abbrev pub fails : {A : Type 0} → FileStore → FileStore × Result A
fails s = (s, err store_error)

abbrev pub max_seq : ℕ
max_seq = 2 ^ 64 - 1

-- Persists the counters of the store.
unfoldable pub persist : Os → FileStore → FileStore × Result Done
persist os s =
    let (d, r) = persist_seqs os (seq_file s.prefix) (s.sender_seq, s.target_seq) s.disk in
    (record s { disk = d }, r)

-- What a setter does once the counters were persisted or not.
abbrev pub or_restore_sender : {A : Type 0} → A → ℕ → FileStore × Result Done → FileStore × Result A
or_restore_sender a old (s, ok _) = (s, ok a)
or_restore_sender a old (s, err e) = (record s { sender_seq = old }, err e)

abbrev pub or_restore_target : ℕ → FileStore × Result Done → FileStore × Result Done
or_restore_target old (s, ok _) = (s, ok tt)
or_restore_target old (s, err e) = (record s { target_seq = old }, err e)

unfoldable pub set_next_sender_seq_num : Os → ℕ → FileStore → FileStore × Result Done
set_next_sender_seq_num os n s =
    if s.closed
    then fails s
    else or_restore_sender tt s.sender_seq (persist os (record s { sender_seq = n }))

unfoldable pub set_next_target_seq_num : Os → ℕ → FileStore → FileStore × Result Done
set_next_target_seq_num os n s =
    if s.closed
    then fails s
    else or_restore_target s.target_seq (persist os (record s { target_seq = n }))

unfoldable pub incr_sender_seq_num : Os → FileStore → FileStore × Result Done
incr_sender_seq_num os s =
    let next = persist os (record s { sender_seq = wrap_seq (s.sender_seq + 1) }) in
    if s.closed
    then fails s
    else if s.sender_seq == max_seq
    then fails s
    else or_restore_sender tt s.sender_seq next

unfoldable pub incr_target_seq_num : Os → FileStore → FileStore × Result Done
incr_target_seq_num os s =
    let next = persist os (record s { target_seq = wrap_seq (s.target_seq + 1) }) in
    if s.closed
    then fails s
    else if s.target_seq == max_seq
    then fails s
    else or_restore_target s.target_seq next

unfoldable pub next_sender_seq_num_incr : Os → FileStore → FileStore × Result ℕ
next_sender_seq_num_incr os s =
    let next = persist os (record s { sender_seq = wrap_seq (s.sender_seq + 1) }) in
    if s.closed
    then fails s
    else if s.sender_seq == max_seq
    then fails s
    else or_restore_sender s.sender_seq s.sender_seq next

unfoldable pub advance_next_target_seq_num : Os → ℕ → FileStore → FileStore × Result Done
advance_next_target_seq_num os n s =
    let next = persist os (record s { target_seq = n }) in
    if s.closed
    then fails s
    else if leb n s.target_seq
    then (s, ok tt)
    else or_restore_target s.target_seq next
