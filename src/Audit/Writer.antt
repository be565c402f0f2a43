-- ===== src/Audit/Writer.antt =====
-- src/log/message_log.cpp: the queue of the audit log and its writer thread.
use fix_protocol.Prelude.{
  ℕ, ◌+◌, ◌%◌, ◌^◌, Bool, true, false, not, ◌&&◌, Option, none, some, List, [], ◌∷◌, ◌++◌,
  if◌then◌else◌, ltb, leb, ◌==◌, length,
}
use fix_protocol.Audit.File.{
  AuditEntry, Outside, Config, DirFile, AuditFile, flushed, count, write_entry, rotate_locked,
  open_file, apply_retention,
}

-- Where the writer thread is: it holds the queue's lock and looks for work, or it writes an entry or
-- flushes the file without the lock, or it has flushed it and takes the lock again, or it is done.
pub data Writer : Type 0 where
  ready : Writer
  writing : AuditEntry → Writer
  flushing relocking ended : Writer

-- What `queue_mutex_` guards, and the rest.
pub record AuditLog : Type 0 where
  pub queue : List AuditEntry
  pub flush_req : ℕ
  pub flush_done : ℕ
  pub running : Bool
  pub writer : Writer
  pub file : AuditFile

-- The bounded queue has room.
abbrev pub has_room : AuditLog → Bool
has_room s = not (ltb 0 s.file.config.max_queue && leb s.file.config.max_queue (length s.queue))

unfoldable pub log : AuditEntry → AuditLog → AuditLog
log e s =
    if has_room s
    then record s { queue = s.queue ++ e ∷ [] }
    else record s { file = record s.file { dropped = count s.file.dropped } }

-- The first half of `flush`: the token is the new `flush_req`.
unfoldable pub request_flush : AuditLog → AuditLog
request_flush s = record s { flush_req = (s.flush_req + 1) % 2 ^ 64 }

-- What the second half of `flush` waits for.
abbrev pub is_acknowledged : ℕ → AuditLog → Bool
is_acknowledged token s = leb token s.flush_done

unfoldable pub rotate : Outside → AuditLog → AuditLog
rotate env s = record s { file = rotate_locked env env.now s.file }

-- The start of the destructor.
unfoldable pub stop : AuditLog → AuditLog
stop s = record s { running = false }

-- `write_loop` from where it has the lock and the queue is empty.
unfoldable pub when_drained : AuditLog → AuditLog
when_drained s =
    if ltb s.flush_done s.flush_req
    then record s { writer = flushing }
    else if not s.running && s.flush_req == s.flush_done
    then record s { writer = ended }
    else s

abbrev pub look : List AuditEntry → AuditLog → AuditLog
look [] s = when_drained s
look (e ∷ q) s = record s { queue = q; writer = writing e }

unfoldable pub flush_file : AuditFile → AuditFile
flush_file f = if f.is_open then record f { trace = flushed ∷ f.trace } else f

-- Requests are acknowledged only if nothing came in while the file was flushed.
abbrev pub acknowledge : List AuditEntry → AuditLog → AuditLog
acknowledge [] s = record s { flush_done = s.flush_req; writer = ready }
acknowledge (_ ∷ _) s = record s { writer = ready }

abbrev pub continue_at : Outside → Writer → AuditLog → AuditLog
continue_at env ready s = look s.queue s
continue_at env (writing e) s = record s { file = write_entry env e s.file; writer = ready }
continue_at env flushing s = record s { file = flush_file s.file; writer = relocking }
continue_at env relocking s = acknowledge s.queue s
continue_at env ended s = s

-- The writer thread up to where it next takes or releases a lock.
unfoldable pub write_step : Outside → AuditLog → AuditLog
write_step env s = continue_at env s.writer s

-- What the threads do, one lock scope at a time.
pub data Action : Type 0 where
  logs : AuditEntry → Action
  asks : Action
  rotates : Outside → Action
  writes : Outside → Action
  stops : Action

unfoldable pub act : Action → AuditLog → AuditLog
act (logs e) s = log e s
act asks s = request_flush s
act (rotates env) s = rotate env s
act (writes env) s = write_step env s
act stops s = stop s

-- The actions of all threads in the order in which they get their locks.
unfoldable pub run : List Action → AuditLog → AuditLog
run [] s = s
run (a ∷ rest) s = run rest (act a s)

-- The end of the constructor, if the first file opens: the thread starts.
abbrev pub started : AuditFile → AuditLog
started f = record {
  queue = [];
  flush_req = 0;
  flush_done = 0;
  running = true;
  writer = ready;
  file = f;
}

abbrev pub closed_file : Config → List DirFile → AuditFile
closed_file c fs = record {
  config = c;
  is_open = false;
  current_path = none;
  current_size = 0;
  directory = fs;
  dropped = 0;
  write_errors = 0;
  trace = [];
}

-- The constructor, behind the making of the directory; without a file it throws.
unfoldable pub open_log : Outside → Config → List DirFile → Option AuditLog
open_log env c fs =
    let f = open_file env env.now (apply_retention env (closed_file c fs)) in
    if f.is_open then some (started f) else none
