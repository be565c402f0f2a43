-- ===== src/Audit/Kept/Losses.antt =====
-- src/log/message_log.cpp: an entry that the queue took is lost only to a stream or to a missing file.
use fix_protocol.Prelude.{
  if◌then◌else◌, not, if_each, ℕ, zero, suc, ◌+◌, ◌≡◌, refl, ◌⊎◌, inl, inr, Bool, true, false, ◌&&◌,
  Option, none, some, List, [], ◌∷◌, ◌++◌, arith, if_both, Bool-cases, leb, length, ap, ◌∙◌, ℤ, pos,
  negsuc,
}
use fix_protocol.Audit.File.{
  AuditEntry, Outside, DirFile, AuditFile, Effect, opened, removed, appended, rejected, unopened,
  flushed, closed, open_file, sweep, swept, for_days, apply_retention, close_current, rotate_locked,
  grown, write_entry, line_of, expires, count,
}
use fix_protocol.Audit.Writer.{
  Writer, ready, writing, flushing, relocking, ended, AuditLog, has_room, log, request_flush,
  rotate, stop, when_drained, look, flush_file, acknowledge, continue_at, write_step, Action, logs,
  asks, rotates, writes, stops, act, run,
}
use fix_protocol.Audit.Kept.{accepted, Kept}
use fix_protocol.Audit.Kept.Run.{run-Kept}

-- The entries that the stream refused, or that came when no file was open, in their order.
unfoldable pub lost : List Effect → List AuditEntry
lost [] = []
lost (rejected e ∷ t) = lost t ++ e ∷ []
lost (unopened e ∷ t) = lost t ++ e ∷ []
lost (appended _ _ ∷ t) = lost t
lost (opened _ ∷ t) = lost t
lost (removed _ ∷ t) = lost t
lost (flushed ∷ t) = lost t
lost (closed ∷ t) = lost t

-- While the action runs, the stream takes every line and every file opens.
unfoldable pub is_fine : Action → Bool
is_fine (writes env) = env.takes && env.opens
is_fine (rotates env) = env.opens
is_fine (logs _) = true
is_fine asks = true
is_fine stops = true

unfoldable pub all_fine : List Action → Bool
all_fine [] = true
all_fine (a ∷ rest) = is_fine a && all_fine rest

-- A file is open, and no entry was lost.
Stays : AuditFile → AuditFile → Type 0
Stays s t = (t.is_open ≡ true) × (lost t.trace ≡ lost s.trace)

sweep-lost :
    (old : DirFile → Bool) (n : ℕ) (fs : List DirFile) (t : List Effect)
    → lost (sweep old n fs t).1 ≡ lost t
unfolding sweep lost
sweep-lost old zero fs t = refl
sweep-lost old (suc n) [] t = refl
sweep-lost old (suc n) (f ∷ fs) t = elim (Bool-cases (old f && f.is_removable)) [
  | inl e ↦ rw (e, sweep) (sweep-lost old n fs (removed f.name ∷ t))
  | inr e ↦ rw (e, sweep) (sweep-lost old n fs t)
]

swept-lost :
    (env : Outside) (days : ℕ) (o : Option ℕ) (s : AuditFile)
    → lost (swept env days o s).trace ≡ lost s.trace
swept-lost env days none s = refl
swept-lost env days (some n) s =
    sweep-lost (expires s.config s.current_path env.file_time days) n s.directory s.trace

for_days-lost :
    (env : Outside) (z : ℤ) (s : AuditFile) → lost (for_days env z s).trace ≡ lost s.trace
for_days-lost env (pos zero) s = refl
for_days-lost env (pos (suc n)) s = swept-lost env (suc n) env.steps s
for_days-lost env (negsuc n) s = refl

close_current-lost : (s : AuditFile) → lost (close_current s).trace ≡ lost s.trace
unfolding close_current lost
close_current-lost s =
    if_both (λ (t : AuditFile). lost t.trace ≡ lost s.trace) s.is_open
      (record s { is_open = false; trace = closed ∷ s.trace }) s refl refl

open_file-Stays :
    (env : Outside) (when : ℕ) (s : AuditFile) → env.opens ≡ true → Stays s (open_file env when s)
unfolding open_file lost Stays
open_file-Stays env when s opens = rw (opens, open_file) (refl, refl)

rotate_locked-Stays :
    (env : Outside) (when : ℕ) (s : AuditFile)
    → env.opens ≡ true
    → Stays s (rotate_locked env when s)
unfolding rotate_locked apply_retention Stays
rotate_locked-Stays env when s opens =
    let t : AuditFile = record (close_current s) { current_path = none } in
    let u = for_days env t.config.retain_days t in
    let o = open_file-Stays env when u opens in
    (o.0, o.1 ∙ for_days-lost env t.config.retain_days t ∙ close_current-lost s)

grown-Stays :
    (env : Outside) (size : ℕ) (s : AuditFile)
    → s.is_open ≡ true
    → env.opens ≡ true
    → Stays s (grown env size s)
unfolding Stays
grown-Stays env size s is_open opens =
    let t : AuditFile = record s { current_size = size } in
    if_both (λ (u : AuditFile). (u.is_open ≡ true) × (lost u.trace ≡ lost s.trace))
      (leb t.config.max_size size) (rotate_locked env env.now t) t
      (rotate_locked-Stays env env.now t opens) (is_open, refl)

write_entry-Stays :
    (env : Outside) (e : AuditEntry) (s : AuditFile)
    → s.is_open ≡ true
    → env.takes ≡ true
    → env.opens ≡ true
    → Stays s (write_entry env e s)
unfolding write_entry lost Stays
write_entry-Stays env e s is_open takes opens =
    let none_open : AuditFile = record s {
      dropped = count s.dropped;
      trace = unopened e ∷ s.trace;
    } in
    let took : AuditFile = record s { trace = appended s.current_path e ∷ s.trace } in
    let size = s.current_size + length (line_of env e) in
    let failed : AuditFile = record s {
      write_errors = count s.write_errors;
      trace = rejected e ∷ s.trace;
    } in
    let P = λ (u : AuditFile). (u.is_open ≡ true) × (lost u.trace ≡ lost s.trace) in
    if_each P (not s.is_open) none_open (if env.takes then grown env size took else failed)
      (λ shut. absurd (let x : ⊥ = ground (arith, is_open, shut) in x))
      λ _.
        if_each P env.takes (grown env size took) failed
          (λ _. grown-Stays env size took is_open opens)
          λ refused. absurd (let x : ⊥ = ground (arith, takes, refused) in x)

flush_file-Stays : (s : AuditFile) → s.is_open ≡ true → Stays s (flush_file s)
unfolding flush_file lost Stays
flush_file-Stays s is_open =
    if_both (λ (t : AuditFile). (t.is_open ≡ true) × (lost t.trace ≡ lost s.trace)) s.is_open
      (record s { trace = flushed ∷ s.trace }) s (is_open, refl) (is_open, refl)

-- The same of a log.
GoesOn : AuditLog → AuditLog → Type 0
GoesOn s t = Stays s.file t.file

itself : (s t : AuditLog) → s.file.is_open ≡ true → t.file ≡ s.file → GoesOn s t
unfolding GoesOn Stays
itself s t is_open same =
    (ap (λ (f : AuditFile). f.is_open) same ∙ is_open, ap (λ (f : AuditFile). lost f.trace) same)

when_drained-file : (s : AuditLog) → (when_drained s).file ≡ s.file
unfolding when_drained
when_drained-file s = ground arith

look-file : (q : List AuditEntry) (s : AuditLog) → (look q s).file ≡ s.file
look-file [] s = when_drained-file s
look-file (e ∷ q) s = refl

acknowledge-file : (q : List AuditEntry) (s : AuditLog) → (acknowledge q s).file ≡ s.file
acknowledge-file [] s = refl
acknowledge-file (e ∷ q) s = refl

continue_at-GoesOn :
    (env : Outside) (w : Writer) (s : AuditLog)
    → s.file.is_open ≡ true
    → env.takes ≡ true
    → env.opens ≡ true
    → GoesOn s (continue_at env w s)
unfolding GoesOn
continue_at-GoesOn env ready s is_open takes opens =
    itself s (look s.queue s) is_open (look-file s.queue s)
continue_at-GoesOn env (writing e) s is_open takes opens =
    write_entry-Stays env e s.file is_open takes opens
continue_at-GoesOn env flushing s is_open takes opens = flush_file-Stays s.file is_open
continue_at-GoesOn env relocking s is_open takes opens =
    itself s (acknowledge s.queue s) is_open (acknowledge-file s.queue s)
continue_at-GoesOn env ended s is_open takes opens = itself s s is_open refl

log-GoesOn : (e : AuditEntry) (s : AuditLog) → s.file.is_open ≡ true → GoesOn s (log e s)
unfolding log GoesOn Stays
log-GoesOn e s is_open =
    if_both (λ (t : AuditLog). (t.file.is_open ≡ true) × (lost t.file.trace ≡ lost s.file.trace))
      (has_room s) (record s { queue = s.queue ++ e ∷ [] })
      (record s { file = record s.file { dropped = count s.file.dropped } }) (is_open, refl)
      (is_open, refl)

act-GoesOn :
    (a : Action) (s : AuditLog) → s.file.is_open ≡ true → is_fine a ≡ true → GoesOn s (act a s)
unfolding act is_fine request_flush rotate stop write_step GoesOn
act-GoesOn (logs e) s is_open fine = log-GoesOn e s is_open
act-GoesOn asks s is_open fine = itself s (act asks s) is_open refl
act-GoesOn (rotates env) s is_open fine = rotate_locked-Stays env env.now s.file fine
act-GoesOn (writes env) s is_open fine =
    continue_at-GoesOn env s.writer s is_open (ground (arith, fine)) (ground (arith, fine))
act-GoesOn stops s is_open fine = itself s (act stops s) is_open refl

run-GoesOn :
    (actions : List Action) (s : AuditLog)
    → s.file.is_open ≡ true
    → all_fine actions ≡ true
    → GoesOn s (run actions s)
unfolding run all_fine GoesOn Stays
run-GoesOn [] s is_open fine = (is_open, refl)
run-GoesOn (a ∷ rest) s is_open fine =
    let one = act-GoesOn a s is_open (ground (arith, fine)) in
    let more = run-GoesOn rest (act a s) one.0 (ground (arith, fine)) in (more.0, more.1 ∙ one.1)

-- From a state that has the entries `given` so, whatever the threads do in whatever order, the
-- entries that the queue took are, in their order, those that the writer is through with, the one
-- that it is writing, and those that wait: none is skipped, taken twice or overtaken. Those that it is
-- through with are written, or lost because the stream refused them or no file was open; and none is
-- lost if a file is open at first and, while the threads run, the stream takes every line and every
-- file opens.
pub run-Keeps :
    (given : List AuditEntry) (actions : List Action) (s : AuditLog)
    → Kept given s
    → Kept (given ++ accepted actions s) (run actions s)
      × ((s.file.is_open && all_fine actions ≡ false)
          ⊎ (lost (run actions s).file.trace ≡ lost s.file.trace))
unfolding GoesOn Stays
run-Keeps given actions s h = (
  run-Kept given actions s h,
  elim (Bool-cases (s.file.is_open && all_fine actions)) [
    | inl fine ↦ inr (run-GoesOn actions s (ground (arith, fine)) (ground (arith, fine))).1
    | inr faulty ↦ inl faulty
  ],
)
