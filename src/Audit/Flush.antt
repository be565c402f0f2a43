-- ===== src/Audit/Flush.antt =====
-- src/log/message_log.cpp: what `flush` promises, whatever order the threads get their locks in.
use fix_protocol.Prelude.{
  ℕ, ◌≡◌, refl, ◌⊎◌, inl, inr, true, false, not, ◌&&◌, some, List, [], ◌∷◌, ◌++◌, if◌then◌else◌,
  if_both, leb, ltb, ◌==◌, sym, ap, ◌∙◌, append_assoc, append-nil, subst,
}
use fix_protocol.Audit.File.{AuditEntry, Config, DirFile, Outside, Effect, count}
use fix_protocol.Audit.Writer.{
  Writer, ready, writing, flushing, relocking, ended, AuditLog, has_room, is_acknowledged, log,
  request_flush, rotate, stop, when_drained, look, acknowledge, continue_at, write_step, Action,
  logs, asks, rotates, writes, stops, act, run, open_log,
}
use fix_protocol.Audit.Trace.{handled, unflushed}
use fix_protocol.Audit.Trace.Files.{rotate_locked-Does, write_entry-Does, flush_file-Does}
use fix_protocol.Audit.Kept.{accepted, Kept, taken}
use fix_protocol.Audit.Kept.Run.{act-Kept, run-Kept, open_log-Kept}

-- At a moment of the past, these entries were handled and nothing was left unflushed.
pub record Flushed (es : List AuditEntry) (t : List Effect) : Type 0 where
  pub later : List Effect
  pub before : List Effect
  pub more : List AuditEntry
  pub split : t ≡ later ++ before
  pub clean : unflushed before ≡ []
  pub there : handled before ≡ es ++ more

-- More was done to the files.
abbrev Grows : AuditLog → AuditLog → Type 0
Grows s t = (more : List Effect) × (t.file.trace ≡ more ++ s.file.trace)

Flushed-later :
    (es : List AuditEntry) (s t : AuditLog)
    → Grows s t
    → Flushed es s.file.trace
    → Flushed es t.file.trace
Flushed-later es s t (more, e) h = record {
  later = more ++ h.later;
  before = h.before;
  more = h.more;
  split = e ∙ ap (λ x. more ++ x) h.split ∙ sym (append_assoc more h.later h.before);
  clean = h.clean;
  there = h.there;
}

-- The requests are acknowledged as they were, or all that was taken was flushed.
abbrev Acknowledges : List AuditEntry → AuditLog → AuditLog → Type 0
Acknowledges given s t = (t.flush_done ≡ s.flush_done) ⊎ Flushed given s.file.trace

when_drained-same :
    (s : AuditLog)
    → (when_drained s).file.trace ≡ s.file.trace × ((when_drained s).flush_done ≡ s.flush_done)
unfolding when_drained
when_drained-same s =
    let P = λ (t : AuditLog). (t.file.trace ≡ s.file.trace) × (t.flush_done ≡ s.flush_done) in
    if_both P (ltb s.flush_done s.flush_req) (record s { writer = flushing })
      (if not s.running && s.flush_req == s.flush_done then record s { writer = ended } else s)
      (refl, refl)
      (if_both P (not s.running && s.flush_req == s.flush_done) (record s { writer = ended }) s
        (refl, refl) (refl, refl))

look-step :
    (given : List AuditEntry) (s : AuditLog) (q : List AuditEntry)
    → Grows s (look q s) × Acknowledges given s (look q s)
look-step given s [] = let (trace, done) = when_drained-same s in (([], trace), inl done)
look-step given s (e ∷ q) = (([], refl), inl refl)

acknowledge-step :
    (given : List AuditEntry) (s : AuditLog) (q : List AuditEntry)
    → s.writer ≡ relocking
    → s.queue ≡ q
    → Kept given s
    → Grows s (acknowledge q s) × Acknowledges given s (acknowledge q s)
acknowledge-step given s (_ ∷ _) at e h = (([], refl), inl refl)
acknowledge-step given s [] at e h =
    let y = h.synced at in
    (
      ([], refl),
      inr (record {
        later = y.later;
        before = y.before;
        more = [];
        split = y.split;
        clean = y.clean;
        there =
            sym (append-nil (handled y.before))
            ∙ ap (λ q. handled y.before ++ q) (sym e)
            ∙ sym y.there
            ∙ sym (append-nil given);
      }),
    )

continue_at-step :
    (given : List AuditEntry) (env : Outside) (s : AuditLog) (w : Writer)
    → s.writer ≡ w
    → Kept given s
    → Grows s (continue_at env w s) × Acknowledges given s (continue_at env w s)
continue_at-step given env s ready at h = look-step given s s.queue
continue_at-step given env s (writing e) at h =
    let d = write_entry-Does env e s.file in ((d.more, d.grows), inl refl)
continue_at-step given env s flushing at h =
    let d = flush_file-Does s.file in ((d.more, d.grows), inl refl)
continue_at-step given env s relocking at h = acknowledge-step given s s.queue at refl h
continue_at-step given env s ended at h = (([], refl), inl refl)

act-step :
    (given : List AuditEntry) (a : Action) (s : AuditLog)
    → Kept given s
    → Grows s (act a s) × Acknowledges given s (act a s)
unfolding act log request_flush rotate stop write_step
act-step given (logs e) s h =
    if_both (λ t. Grows s t × Acknowledges given s t) (has_room s)
      (record s { queue = s.queue ++ e ∷ [] })
      (record s { file = record s.file { dropped = count s.file.dropped } }) (([], refl), inl refl)
      (([], refl), inl refl)
act-step given asks s h = (([], refl), inl refl)
act-step given (rotates env) s h =
    let d = rotate_locked-Does env env.now s.file in ((d.more, d.grows), inl refl)
act-step given (writes env) s h = continue_at-step given env s s.writer refl h
act-step given stops s h = (([], refl), inl refl)

-- Of more that was flushed, the first part.
Flushed-first :
    (es more : List AuditEntry) (t : List Effect) → Flushed (es ++ more) t → Flushed es t
Flushed-first es more t h = record {
  later = h.later;
  before = h.before;
  more = more ++ h.more;
  split = h.split;
  clean = h.clean;
  there = h.there ∙ append_assoc es more h.more;
}

-- The request is not acknowledged yet, or the entries were flushed.
abbrev Waits : ℕ → List AuditEntry → AuditLog → Type 0
Waits token es s = (is_acknowledged token s ≡ false) ⊎ Flushed es s.file.trace

act-Waits :
    (token : ℕ) (es more : List AuditEntry) (a : Action) (s : AuditLog)
    → Kept (es ++ more) s
    → Waits token es s
    → Waits token es (act a s)
act-Waits token es more a s h w =
    let (grows, done) = act-step (es ++ more) a s h in
    elim w [
      | inr f ↦ inr (Flushed-later es s (act a s) grows f)
      | inl e ↦ elim done [
        | inl same ↦ inl (ap (leb token) same ∙ e)
        | inr f ↦ inr (Flushed-later es s (act a s) grows (Flushed-first es more s.file.trace f))
      ]
    ]

run-Waits :
    (token : ℕ) (es more : List AuditEntry) (actions : List Action) (s : AuditLog)
    → Kept (es ++ more) s
    → Waits token es s
    → Waits token es (run actions s)
unfolding run
run-Waits token es more [] s h w = w
run-Waits token es more (a ∷ rest) s h w =
    run-Waits token es (more ++ taken a s) rest (act a s)
      (subst (λ g. Kept g (act a s)) (append_assoc es more (taken a s))
        (act-Kept (es ++ more) a s h))
      (act-Waits token es more a s h w)

-- When a request for a flush that was not acknowledged at once is, every entry that the queue had taken before the request
-- was handled and the file was flushed after it, whatever the threads did in the meantime and in
-- whatever order.
pub flush-Flushed :
    (env : Outside) (c : Config) (fs : List DirFile) (s : AuditLog) (before after : List Action)
    → open_log env c fs ≡ some s
    → let asked = request_flush (run before s) in
      is_acknowledged asked.flush_req asked ≡ false
      → is_acknowledged asked.flush_req (run after asked) ≡ true
      → Flushed (accepted before s) (run after asked).file.trace
unfolding act
flush-Flushed env c fs s before after opens waits done =
    let given = accepted before s in
    let asked = request_flush (run before s) in
    let kept =
      act-Kept given asks (run before s) (run-Kept [] before s (open_log-Kept env c fs s opens)) in
    elim (run-Waits asked.flush_req given [] after asked kept (inl waits)) [
      | inl e ↦ absurd (let x : true ≡ false = sym done ∙ e in cc)
      | inr f ↦ f
    ]
