-- ===== src/Parser/Stream.antt =====
-- src/parser/parser.cpp: the state of `StreamParser` and its operations. `buf` is the first
-- `write_pos_` bytes of the buffer; the bytes behind them are spare room that is never read.
pub mod Progress
pub mod Drain
pub mod Kept
pub mod Feed
use fix_protocol.Prelude.{
  ℕ, zero, suc, ◌+◌, ◌-◌, ◌*◌, ◌%◌, ◌^◌, Bool, true, false, not, ◌&&◌, ◌||◌, Option, none, some,
  List, [], ◌∷◌, ◌++◌, Bytes, ◌==◌, leb, ltb, if◌then◌else◌, length, take, drop, min, max,
  get_elem?,
}
use mathlib.Core.Option
use fix_protocol.Core.Types.{ErrorCode, parse_error, bad_length, duplicate_field}
use fix_protocol.Core.Message.{Message}
use fix_protocol.Parser.Field.{size_limit}
use fix_protocol.Parser.Frame.{
  Options, Verdict, wait, wait_oversized, skip, accept, abort, verdict, parse_frame, min_msg_len,
}

pub record StreamParser : Type 0 where
  pub buf : Bytes
  pub read_pos : ℕ
  pub consumed : ℕ
  pub msg_count : ℕ
  pub resync_count : ℕ
  pub last_error : Option ErrorCode
  pub healthy : Bool
  pub buf_cap : ℕ
  pub opts : Options
  pub pending : List Message
  pub pending_pos : ℕ

abbrev pub write_pos : StreamParser → ℕ
write_pos p = length p.buf

abbrev pub buffered : StreamParser → ℕ
buffered p = length p.buf - p.read_pos

abbrev pub base : StreamParser → Bytes
base p = drop p.read_pos p.buf

-- Arithmetic of 64-bit counters.
abbrev pub wrap64 : ℕ → ℕ
wrap64 n = n % 2 ^ 64

abbrev pub keep_tail : ℕ
keep_tail = 7

abbrev pub backlog_slack : ℕ
backlog_slack = 4096

-- The constructor.
unfoldable pub init : Options → StreamParser
init opts = record {
  buf = [];
  read_pos = 0;
  consumed = 0;
  msg_count = 0;
  resync_count = 0;
  last_error = none;
  healthy = true;
  buf_cap = if ltb 0 opts.max_msg_len then wrap64 (opts.max_msg_len + backlog_slack) else 0;
  opts = opts;
  pending = [];
  pending_pos = 0;
}

unfoldable pub reset : StreamParser → StreamParser
reset p = record p {
  buf = [];
  read_pos = 0;
  consumed = 0;
  msg_count = 0;
  resync_count = 0;
  last_error = none;
  healthy = true;
  pending = [];
  pending_pos = 0;
}

unfoldable pub compact : StreamParser → StreamParser
compact p = if p.read_pos == 0 then p else record p { buf = drop p.read_pos p.buf; read_pos = 0 }

unfoldable pub append_bytes : StreamParser → Bytes → StreamParser
append_bytes p bytes =
    if leb size_limit (write_pos p + length bytes)
    then record p { healthy = false; last_error = some bad_length }
    else record p { buf = p.buf ++ bytes }

-- The index of the first `8=`.
unfoldable pub find_start : Bytes → Option ℕ
find_start [] = none
find_start (a ∷ []) = none
find_start (a ∷ b ∷ cs) =
    if a == b'8' && b == b'=' then some 0 else Option.map suc (find_start (b ∷ cs))

-- How many bytes `resync_scan` discards, of `avail` bytes at the read position.
unfoldable pub discard : ℕ → Option ℕ → ℕ
discard avail none = avail - min avail keep_tail
discard avail (some n) = n

abbrev pub window : StreamParser → ℕ
window p = if ltb 0 p.opts.max_msg_len then min (buffered p) p.opts.max_msg_len else buffered p

unfoldable pub resync_scan : StreamParser → ErrorCode → StreamParser × ℕ
unfolding discard
resync_scan p e =
    let n = discard (buffered p) (find_start (take (window p) (base p))) in
    if ltb (buffered p) 2 || n == 0 then (p, 0) else (
      record p {
        read_pos = p.read_pos + n;
        consumed = wrap64 (p.consumed + n);
        resync_count = wrap64 (p.resync_count + 1);
        last_error = some e;
      },
      n,
    )

unfoldable pub skip_frame : StreamParser → ℕ → ErrorCode → StreamParser
skip_frame p n e =
    let k = min (max n 1) (buffered p) in
    (resync_scan
      (record p {
        read_pos = p.read_pos + k;
        consumed = wrap64 (p.consumed + k);
        last_error = some e;
      })
      e).0

-- `aborted` stands for the call of `std::abort`.
pub data ParseStatus : Type 0 where
  message error need_more aborted : ParseStatus

abbrev pub success_error : Message → Option ErrorCode
success_error m = if m.duplicate_header then some duplicate_field else none

unfoldable pub deliver : StreamParser → ℕ → Message → StreamParser
deliver p n m = record p {
  pending = p.pending ++ m ∷ [];
  msg_count = wrap64 (p.msg_count + 1);
  last_error = success_error m;
  read_pos = p.read_pos + n;
  consumed = wrap64 (p.consumed + n);
}

unfoldable pub apply_verdict : StreamParser → Verdict → StreamParser × ParseStatus
apply_verdict p wait = (p, need_more)
apply_verdict p wait_oversized = (record p { last_error = some bad_length }, need_more)
apply_verdict p (skip n e) = (skip_frame p n e, error)
apply_verdict p (accept n m) = (deliver p n m, message)
apply_verdict p abort = (p, aborted)

abbrev pub starts_frame : Bytes → Bool
starts_frame (a ∷ b ∷ _) = a == b'8' && b == b'='
starts_frame _ = false

abbrev pub resynced : StreamParser × ℕ → StreamParser × ParseStatus
resynced (p, n) = (p, if ltb 0 n then error else need_more)

unfoldable pub try_parse_one : StreamParser → StreamParser × ParseStatus
try_parse_one p =
    if ltb (buffered p) 2
    then (p, need_more)
    else if not (starts_frame (base p))
    then resynced (resync_scan p parse_error)
    else if ltb (buffered p) min_msg_len
    then (p, need_more)
    else apply_verdict p (verdict (parse_frame p.opts p.buf_cap (base p)))

-- The loop of `drain`: a step that delivers or skips leaves fewer bytes, so the bytes buffered and
-- one more round are enough fuel.
unfoldable pub drain_loop : ℕ → StreamParser → StreamParser
drain_loop zero p = p
drain_loop (suc fuel) p =
    let (q, status) = try_parse_one p in
    elim status [ need_more ↦ q | aborted ↦ q | _ ↦ drain_loop fuel q ]

unfoldable pub drain : StreamParser → StreamParser
drain p = drain_loop (suc (buffered p)) p

abbrev pub or_parse_error : Option ErrorCode → Option ErrorCode
or_parse_error none = some parse_error
or_parse_error (some e) = some e

abbrev pub give_up : StreamParser → StreamParser
give_up p = record p {
  healthy = false;
  last_error = or_parse_error p.last_error;
  consumed = wrap64 (p.consumed + buffered p);
  buf = [];
  read_pos = 0;
}

unfoldable pub enforce_cap : StreamParser → StreamParser
enforce_cap p =
    let q = compact (drain (compact (resync_scan p parse_error).0)) in
    if p.buf_cap == 0 || ltb (write_pos p) p.buf_cap
    then p
    else if leb (buffered p) (buffered q)
    then give_up q
    else q

-- How many bytes may be appended without passing the cap, when `len` bytes wait.
abbrev pub room : StreamParser → ℕ → ℕ
room p len =
    if p.buf_cap == 0
    then len
    else if ltb (write_pos p) p.buf_cap
    then p.buf_cap - write_pos p
    else 0

abbrev pub latch : StreamParser → StreamParser
latch p = record p { healthy = false; last_error = or_parse_error p.last_error }

-- The loop of `feed`, with the last `drain`. A round takes bytes, or makes room for the next one,
-- so twice the bytes and two more rounds are enough fuel.
unfoldable pub feed_loop : ℕ → StreamParser → Bytes → StreamParser
feed_loop zero p bytes = p
feed_loop (suc fuel) p [] = drain p
feed_loop (suc fuel) p (c ∷ cs) =
    let q = compact (drain p) in
    let n = min (length (c ∷ cs)) (room q (length (c ∷ cs))) in
    let r = enforce_cap q in
    let later = feed_loop fuel r (c ∷ cs) in
    let appended = feed_loop fuel (append_bytes q (take n (c ∷ cs))) (drop n (c ∷ cs)) in
    if room q (length (c ∷ cs)) == 0
    then (if not r.healthy
        then r
        else if leb (buffered q) (buffered r) && leb r.buf_cap (write_pos r)
        then latch r
        else later)
    else appended

unfoldable pub feed : StreamParser → Bytes → StreamParser
feed p bytes =
    if length bytes == 0 || not p.healthy then p else feed_loop (2 * length bytes + 2) p bytes

-- `none` is `false`, with the message cleared.
unfoldable pub next : StreamParser → StreamParser × Option Message
next p =
    if leb (length p.pending) p.pending_pos
    then (record p { pending = []; pending_pos = 0 }, none)
    else (record p { pending_pos = p.pending_pos + 1 }, get_elem? p.pending p.pending_pos)
