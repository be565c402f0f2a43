-- ===== src/Audit/Kept/Run.antt =====
-- src/log/message_log.cpp: the entries of the queue through any actions of the threads.
use fix_protocol.Prelude.{
  ℕ, Option, none, ◌+◌, ◌%◌, ◌^◌, some, ◌≡◌, refl, Bool, false, List, [], ◌∷◌, ◌++◌, if_each, subst,
  sym, ap, ◌∙◌, append_assoc, append-nil,
}
use fix_protocol.Audit.File.{
  open_file, apply_retention, Config, DirFile, AuditEntry, Outside, rotate_locked,
}
use fix_protocol.Audit.Writer.{
  Writer, ready, writing, flushing, relocking, ended, AuditLog, request_flush, rotate, stop, look,
  acknowledge, continue_at, write_step, Action, logs, asks, rotates, writes, stops, act, run,
  started, open_log, closed_file,
}
use fix_protocol.Audit.Trace.{handled, unflushed}
use fix_protocol.Audit.Trace.Files.{start-Does, rotate_locked-Does}
use fix_protocol.Audit.Kept.{
  taken, accepted, in_flight, Kept, Synced-later, files-Kept, log-Kept, moved-Kept, wrote-Kept,
  flushed-Kept, drained-Kept,
}

acknowledge-Kept :
    (given : List AuditEntry) (s : AuditLog) (q : List AuditEntry)
    → s.writer ≡ relocking
    → Kept given s
    → Kept given (acknowledge q s)
acknowledge-Kept given s [] at h = record {
  all = h.all ∙ ap (λ w. handled s.file.trace ++ (in_flight w ++ s.queue)) at;
  shut = h.shut;
  synced = λ r. absurd (let x : ⊥ = cc in x);
}
acknowledge-Kept given s (_ ∷ _) at h =
    moved-Kept given s ready s.queue (ap (λ w. in_flight w ++ s.queue) (sym at)) (λ e. cc) h

look-Kept :
    (given : List AuditEntry) (s : AuditLog) (q : List AuditEntry)
    → s.writer ≡ ready
    → s.queue ≡ q
    → Kept given s
    → Kept given (look q s)
look-Kept given s [] at e h = drained-Kept given s at h
look-Kept given s (x ∷ q) at e h =
    moved-Kept given s (writing x) q (sym e ∙ ap (λ w. in_flight w ++ s.queue) (sym at)) (λ r. cc) h

continue_at-Kept :
    (given : List AuditEntry) (env : Outside) (s : AuditLog) (w : Writer)
    → s.writer ≡ w
    → Kept given s
    → Kept given (continue_at env w s)
continue_at-Kept given env s ready at h = look-Kept given s s.queue at refl h
continue_at-Kept given env s (writing e) at h = wrote-Kept given env s e at h
continue_at-Kept given env s flushing at h = flushed-Kept given s at h
continue_at-Kept given env s relocking at h = acknowledge-Kept given s s.queue at h
continue_at-Kept given env s ended at h = h

-- The threads were told something.
told-Kept :
    (given : List AuditEntry) (s : AuditLog) (n : ℕ) (b : Bool)
    → Kept given s
    → Kept given (record s { flush_req = n; running = b })
told-Kept given s n b h = record {
  all = h.all;
  shut = h.shut;
  synced =
      λ r. Synced-later given s (record s { flush_req = n; running = b }) [] refl refl (h.synced r);
}

pub act-Kept :
    (given : List AuditEntry) (a : Action) (s : AuditLog)
    → Kept given s
    → Kept (given ++ taken a s) (act a s)
unfolding act request_flush rotate stop write_step
act-Kept given (logs e) s h = log-Kept given s e h
act-Kept given asks s h =
    subst (λ g. Kept g (act asks s)) (sym (append-nil given))
      (told-Kept given s ((s.flush_req + 1) % 2 ^ 64) s.running h)
act-Kept given (rotates env) s h =
    subst (λ g. Kept g (act (rotates env) s)) (sym (append-nil given))
      (files-Kept given s (rotate_locked env env.now s.file) (rotate_locked-Does env env.now s.file)
        h)
act-Kept given (writes env) s h =
    subst (λ g. Kept g (act (writes env) s)) (sym (append-nil given))
      (continue_at-Kept given env s s.writer refl h)
act-Kept given stops s h =
    subst (λ g. Kept g (act stops s)) (sym (append-nil given))
      (told-Kept given s s.flush_req false h)

pub run-Kept :
    (given : List AuditEntry) (actions : List Action) (s : AuditLog)
    → Kept given s
    → Kept (given ++ accepted actions s) (run actions s)
unfolding run accepted
run-Kept given [] s h = subst (λ g. Kept g s) (sym (append-nil given)) h
run-Kept given (a ∷ rest) s h =
    subst (λ g. Kept g (run rest (act a s)))
      (append_assoc given (taken a s) (accepted rest (act a s)))
      (run-Kept (given ++ taken a s) rest (act a s) (act-Kept given a s h))

pub open_log-Kept :
    (env : Outside) (c : Config) (fs : List DirFile) (s : AuditLog)
    → open_log env c fs ≡ some s
    → Kept [] s
unfolding open_log handled unflushed
open_log-Kept env c fs s =
    let f = open_file env env.now (apply_retention env (closed_file c fs)) in
    let d = start-Does env c fs in
    if_each (λ (o : Option AuditLog). o ≡ some s → Kept [] s) f.is_open (some (started f)) none
      (λ is_open h. subst (Kept []) (let x : started f ≡ s = cc in x) (record {
        all = sym d.handles ∙ sym (append-nil (handled f.trace));
        shut = d.shut (λ _. refl);
        synced = λ r. absurd (let x : ⊥ = cc in x);
      }))
      (λ _ h. absurd (let x : ⊥ = cc in x))
