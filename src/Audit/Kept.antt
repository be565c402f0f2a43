-- ===== src/Audit/Kept.antt =====
-- src/log/message_log.cpp: the entries that the queue takes, and their order.
pub mod Run
pub mod Losses
use fix_protocol.Prelude.{
  ℕ, Option, none, ◌+◌, ◌%◌, ◌^◌, some, ◌≡◌, ◌≢◌, refl, Bool, false, not, ◌&&◌, List, [], ◌∷◌, ◌++◌,
  if◌then◌else◌, if_each, if_both, if_pair, subst, ltb, ◌==◌, sym, ap, ◌∙◌, append_assoc,
  append-nil,
}
use fix_protocol.Audit.File.{
  open_file, apply_retention, Config, DirFile, AuditEntry, Outside, AuditFile, Effect, count,
  write_entry, rotate_locked,
}
use fix_protocol.Audit.Writer.{
  Writer, ready, writing, flushing, relocking, ended, AuditLog, has_room, log, request_flush,
  rotate, stop, when_drained, look, flush_file, acknowledge, continue_at, write_step, Action, logs,
  asks, rotates, writes, stops, act, run, started, open_log, closed_file,
}
use fix_protocol.Audit.Trace.{handled, unflushed, Does, Does-nothing}
use fix_protocol.Audit.Trace.Files.{
  start-Does, rotate_locked-Does, write_entry-Does, flush_file-Does, flush_file-clean,
}

-- The entry that is being written.
abbrev pub in_flight : Writer → List AuditEntry
in_flight (writing e) = e ∷ []
in_flight _ = []

abbrev pub waiting : AuditLog → List AuditEntry
waiting s = in_flight s.writer ++ s.queue

-- What the queue takes of an action.
abbrev pub taken : Action → AuditLog → List AuditEntry
taken (logs e) s = if has_room s then e ∷ [] else []
taken _ s = []

-- The entries that the queue takes while the actions run.
unfoldable pub accepted : List Action → AuditLog → List AuditEntry
accepted [] s = []
accepted (a ∷ rest) s = taken a s ++ accepted rest (act a s)

-- At a moment of the past, all that was taken but what is in the queue was handled, and nothing was
-- left unflushed.
pub record Synced (given : List AuditEntry) (s : AuditLog) : Type 0 where
  pub later : List Effect
  pub before : List Effect
  pub split : s.file.trace ≡ later ++ before
  pub clean : unflushed before ≡ []
  pub there : given ≡ handled before ++ s.queue

-- The entries `given` were taken: the writer is through with the first of them, and the others wait.
pub record Kept (given : List AuditEntry) (s : AuditLog) : Type 0 where
  pub all : given ≡ handled s.file.trace ++ waiting s
  pub shut : s.file.is_open ≡ false → unflushed s.file.trace ≡ []
  pub synced : s.writer ≡ relocking → Synced given s

pub Synced-later :
    (given : List AuditEntry) (s t : AuditLog) (more : List Effect)
    → t.file.trace ≡ more ++ s.file.trace
    → t.queue ≡ s.queue
    → Synced given s
    → Synced given t
Synced-later given s t more grows same h = record {
  later = more ++ h.later;
  before = h.before;
  split = grows ∙ ap (λ x. more ++ x) h.split ∙ sym (append_assoc more h.later h.before);
  clean = h.clean;
  there = h.there ∙ ap (λ q. handled h.before ++ q) (sym same);
}

-- A change of the files alone, that handles nothing.
pub files-Kept :
    (given : List AuditEntry) (s : AuditLog) (f : AuditFile)
    → Does [] s.file f
    → Kept given s
    → Kept given (record s { file = f })
files-Kept given s f d h = record {
  all = h.all ∙ ap (λ x. x ++ waiting s) (sym (append-nil (handled s.file.trace)) ∙ sym d.handles);
  shut = d.shut h.shut;
  synced = λ e. Synced-later given s (record s { file = f }) d.more d.grows refl (h.synced e);
}

pub queued-Kept :
    (given : List AuditEntry) (s : AuditLog) (e : AuditEntry)
    → Kept given s
    → Kept (given ++ e ∷ []) (record s { queue = s.queue ++ e ∷ [] })
queued-Kept given s e h = record {
  all =
      ap (λ x. x ++ e ∷ []) h.all
      ∙ append_assoc (handled s.file.trace) (waiting s) (e ∷ [])
      ∙ ap (λ x. handled s.file.trace ++ x) (append_assoc (in_flight s.writer) s.queue (e ∷ []));
  shut = h.shut;
  synced = λ r.
      let y = h.synced r in
      record {
        later = y.later;
        before = y.before;
        split = y.split;
        clean = y.clean;
        there = ap (λ x. x ++ e ∷ []) y.there ∙ append_assoc (handled y.before) s.queue (e ∷ []);
      };
}

pub log-Kept :
    (given : List AuditEntry) (s : AuditLog) (e : AuditEntry)
    → Kept given s
    → Kept (given ++ taken (logs e) s) (log e s)
unfolding log
log-Kept given s e h =
    let lost : AuditFile = record s.file { dropped = count s.file.dropped } in
    let same : Does [] s.file lost =
      let d = Does-nothing s.file in
      record { more = d.more; grows = d.grows; handles = d.handles; shut = d.shut } in
    if_pair (λ es t. Kept (given ++ es) t) (has_room s) (e ∷ []) []
      (record s { queue = s.queue ++ e ∷ [] }) (record s { file = lost }) (queued-Kept given s e h)
      (subst (λ g. Kept g (record s { file = lost })) (sym (append-nil given))
        (files-Kept given s lost same h))

-- The writer takes another place, and what it holds and the queue have the same entries.
pub moved-Kept :
    (given : List AuditEntry) (s : AuditLog) (w : Writer) (q : List AuditEntry)
    → in_flight w ++ q ≡ waiting s
    → w ≢ relocking
    → Kept given s
    → Kept given (record s { writer = w; queue = q })
moved-Kept given s w q same other h = record {
  all = h.all ∙ ap (λ x. handled s.file.trace ++ x) (sym same);
  shut = h.shut;
  synced = λ r. absurd (other r);
}

pub wrote-Kept :
    (given : List AuditEntry) (env : Outside) (s : AuditLog) (e : AuditEntry)
    → s.writer ≡ writing e
    → Kept given s
    → Kept given (record s { file = write_entry env e s.file; writer = ready })
wrote-Kept given env s e at h =
    let d = write_entry-Does env e s.file in
    record {
      all =
          h.all
          ∙ ap (λ w. handled s.file.trace ++ (in_flight w ++ s.queue)) at
          ∙ sym (append_assoc (handled s.file.trace) (e ∷ []) s.queue)
          ∙ ap (λ x. x ++ s.queue) (sym d.handles);
      shut = d.shut h.shut;
      synced = λ r. cc;
    }

pub flushed-Kept :
    (given : List AuditEntry) (s : AuditLog)
    → s.writer ≡ flushing
    → Kept given s
    → Kept given (record s { file = flush_file s.file; writer = relocking })
flushed-Kept given s at h =
    let d = flush_file-Does s.file in
    let f = flush_file s.file in
    let all : given ≡ handled f.trace ++ s.queue =
      h.all
      ∙ ap (λ w. handled s.file.trace ++ (in_flight w ++ s.queue)) at
      ∙ ap (λ x. x ++ s.queue) (sym (append-nil (handled s.file.trace)) ∙ sym d.handles) in
    record {
      all = all;
      shut = d.shut h.shut;
      synced = λ _. record {
        later = [];
        before = f.trace;
        split = refl;
        clean = flush_file-clean s.file h.shut;
        there = all;
      };
    }

pub drained-Kept :
    (given : List AuditEntry) (s : AuditLog)
    → s.writer ≡ ready
    → Kept given s
    → Kept given (when_drained s)
unfolding when_drained
drained-Kept given s at h =
    let same =
      λ (w : Writer) (e : in_flight w ≡ []). ap (λ x. x ++ s.queue) (e ∙ ap in_flight (sym at)) in
    if_both (Kept given) (ltb s.flush_done s.flush_req) (record s { writer = flushing })
      (if not s.running && s.flush_req == s.flush_done then record s { writer = ended } else s)
      (moved-Kept given s flushing s.queue (same flushing refl) (λ e. cc) h)
      (if_both (Kept given) (not s.running && s.flush_req == s.flush_done)
        (record s { writer = ended }) s
        (moved-Kept given s ended s.queue (same ended refl) (λ e. cc) h) h)
