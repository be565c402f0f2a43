-- ===== src/Audit/Drains.antt =====
-- src/log/message_log.cpp, `write_loop`: a flush that is asked for is acknowledged.
use fix_protocol.Prelude.{
  ℕ, ◌+◌, ◌*◌, ◌≤◌, ◌<◌, ◌≡◌, ◌≢◌, refl, ◌⊎◌, inl, inr, not, ◌&&◌, List, [], ◌∷◌, arith,
  if◌then◌else◌, if_both, ltb, ◌==◌, length, map, sym, ap, ◌∙◌, lt→ltb, subst,
}
use fix_protocol.Audit.File.{AuditEntry, Outside}
use fix_protocol.Audit.Writer.{
  Writer, ready, writing, flushing, relocking, ended, AuditLog, when_drained, look, acknowledge,
  continue_at, write_step, Action, writes, act, run,
}

-- How many steps the writer is from the acknowledgement, if nothing comes in.
unfoldable pub work : Writer → List AuditEntry → ℕ
work ready q = 3 + 2 * length q
work (writing _) q = 4 + 2 * length q
work flushing [] = 2
work flushing (_ ∷ q) = 7 + 2 * length q
work relocking [] = 1
work relocking (_ ∷ q) = 6 + 2 * length q
work ended q = 0

work-positive : (w : Writer) (q : List AuditEntry) → w ≢ ended → 1 ≤ work w q
unfolding work
work-positive ready q h = omega arith
work-positive (writing x) q h = omega arith
work-positive flushing [] h = omega arith
work-positive flushing (x ∷ q) h = omega arith
work-positive relocking [] h = omega arith
work-positive relocking (x ∷ q) h = omega arith
work-positive ended q h = absurd (h refl)

-- What a step leads to: all requests are acknowledged, or the writer is closer to it.
Closer : AuditLog → AuditLog → Type 0
Closer s t =
    (t.flush_req ≡ s.flush_req)
    × ((t.flush_done ≡ s.flush_req)
        ⊎ (t.flush_done ≡ s.flush_done)
          × (t.writer ≢ ended)
          × (work t.writer t.queue < work s.writer s.queue))

module _ (env : Outside) (s : AuditLog) (waits : s.flush_done < s.flush_req) where
  than :
      (k : ℕ) (w : Writer) (q : List AuditEntry)
      → s.writer ≡ w
      → s.queue ≡ q
      → k < work w q
      → k < work s.writer s.queue
  than k w q at e h = subst (λ v. k < work v s.queue) (sym at) (subst (λ r. k < work w r) (sym e) h)

  look-Closer : (q : List AuditEntry) → s.writer ≡ ready → s.queue ≡ q → Closer s (look q s)
  unfolding when_drained Closer work
  look-Closer [] at e = rw (lt→ltb s.flush_done s.flush_req waits) (
    refl,
    inr (
      refl,
      (λ x. cc),
      than (work flushing s.queue) ready [] at e (omega (arith, ap (work flushing) e)),
    ),
  )
  look-Closer (x ∷ q) at e =
      (refl, inr (refl, (λ y. cc), than (work (writing x) q) ready (x ∷ q) at e (omega arith)))

  acknowledge-Closer :
      (q : List AuditEntry) → s.writer ≡ relocking → s.queue ≡ q → Closer s (acknowledge q s)
  unfolding Closer work
  acknowledge-Closer [] at e = (refl, inl refl)
  acknowledge-Closer (x ∷ q) at e = (
    refl,
    inr (
      refl,
      (λ y. cc),
      than (work ready s.queue) relocking (x ∷ q) at e (omega (arith, ap (work ready) e)),
    ),
  )

  flushing-Closer :
      (q : List AuditEntry)
      → s.writer ≡ flushing
      → s.queue ≡ q
      → work relocking s.queue < work flushing q
  unfolding work
  flushing-Closer [] at e = omega (arith, ap (work relocking) e)
  flushing-Closer (x ∷ q) at e = omega (arith, ap (work relocking) e)

  continue_at-Closer : (w : Writer) → s.writer ≡ w → w ≢ ended → Closer s (continue_at env w s)
  unfolding Closer work
  continue_at-Closer ready at live = look-Closer s.queue at refl
  continue_at-Closer (writing x) at live = (
    refl,
    inr (refl, (λ y. cc), than (work ready s.queue) (writing x) s.queue at refl (omega arith)),
  )
  continue_at-Closer flushing at live = (
    refl,
    inr (
      refl,
      (λ y. cc),
      than (work relocking s.queue) flushing s.queue at refl (flushing-Closer s.queue at refl),
    ),
  )
  continue_at-Closer relocking at live = acknowledge-Closer s.queue at refl
  continue_at-Closer ended at live = absurd (live refl)

-- No request is open.
abbrev Quiet : ℕ → AuditLog → Type 0
Quiet n s = (s.flush_req ≡ n) × (s.flush_done ≡ n)

when_drained-Quiet : (n : ℕ) (s : AuditLog) → Quiet n s → Quiet n (when_drained s)
unfolding when_drained
when_drained-Quiet n s h =
    if_both (Quiet n) (ltb s.flush_done s.flush_req) (record s { writer = flushing })
      (if not s.running && s.flush_req == s.flush_done then record s { writer = ended } else s) h
      (if_both (Quiet n) (not s.running && s.flush_req == s.flush_done)
        (record s { writer = ended }) s h h)

look-Quiet : (n : ℕ) (s : AuditLog) (q : List AuditEntry) → Quiet n s → Quiet n (look q s)
look-Quiet n s [] h = when_drained-Quiet n s h
look-Quiet n s (_ ∷ q) h = h

acknowledge-Quiet :
    (n : ℕ) (s : AuditLog) (q : List AuditEntry) → Quiet n s → Quiet n (acknowledge q s)
acknowledge-Quiet n s [] h = (h.0, h.0)
acknowledge-Quiet n s (_ ∷ q) h = h

continue_at-Quiet :
    (n : ℕ) (env : Outside) (s : AuditLog) (w : Writer) → Quiet n s → Quiet n (continue_at env w s)
continue_at-Quiet n env s ready h = look-Quiet n s s.queue h
continue_at-Quiet n env s (writing x) h = h
continue_at-Quiet n env s flushing h = h
continue_at-Quiet n env s relocking h = acknowledge-Quiet n s s.queue h
continue_at-Quiet n env s ended h = h

-- The writer runs alone.
abbrev pub alone : List Outside → List Action
alone envs = map writes envs

alone-Quiet :
    (n : ℕ) (envs : List Outside) (s : AuditLog) → Quiet n s → Quiet n (run (alone envs) s)
unfolding run act write_step
alone-Quiet n [] s h = h
alone-Quiet n (env ∷ envs) s h =
    alone-Quiet n envs (write_step env s) (continue_at-Quiet n env s s.writer h)

-- If nothing comes in and the writer thread has not ended, it acknowledges the flushes that were asked
-- for and not acknowledged, after at most as
-- many steps as `work` says, whether the file takes what is written or not.
pub writes-acknowledge :
    (envs : List Outside) (s : AuditLog)
    → s.writer ≢ ended
    → s.flush_done < s.flush_req
    → work s.writer s.queue ≤ length envs
    → (run (alone envs) s).flush_done ≡ s.flush_req
unfolding run act write_step Closer
writes-acknowledge [] s live waits enough =
    absurd (omega (arith, enough, work-positive s.writer s.queue live))
writes-acknowledge (env ∷ envs) s live waits enough =
    let t = write_step env s in
    let (req, outcome) = continue_at-Closer env s waits s.writer refl live in
    elim outcome [
      | inl done ↦ (alone-Quiet s.flush_req envs t (req, done)).1
      | inr (same, going, less) ↦
          writes-acknowledge envs t going (omega (arith, req, same, waits))
            (omega (arith, less, enough))
          ∙ req
    ]
