-- ===== src/Errors/Drained.antt =====
-- src/session/session.cpp and include/fix/engine.hpp: what a drain delivers.
use fix_protocol.Prelude.{
  ℕ, zero, suc, ◌≤◌, ◌≡◌, refl, true, false, List, [], ◌∷◌, ◌++◌, Bytes, arith, if◌then◌else◌,
  if_each, if_both, if_pair, subst, length, take, leb, ◌+◌, ◌%◌, ◌^◌, length-append, sym, ap, ◌∙◌,
  append_assoc, append-nil,
}
use fix_protocol.Errors.{
  Handlers, DeferredErrorSink, push, push_all, deliver, drain, max_pending, max_queued, Errors,
  report_locked, report_all, invoke_on_error, invoke_all, run_hook, settled, round, rounds,
  drain_pending_errors,
}

module _ {E : Type 0} (h : Handlers E) where
  push_all-delivered :
      (es : List E) (s : DeferredErrorSink E) → (push_all es s).delivered ≡ s.delivered
  unfolding push_all push
  push_all-delivered [] s = refl
  push_all-delivered (e ∷ es) s = push_all-delivered es (push e s) ∙ ground arith

  deliver-delivered :
      (es : List E) (s : DeferredErrorSink E) → (deliver h es s).delivered ≡ s.delivered ++ es
  unfolding deliver
  deliver-delivered [] s = sym (append-nil s.delivered)
  deliver-delivered (e ∷ es) s =
      let t = record s { delivered = s.delivered ++ e ∷ [] } in
      deliver-delivered es (push_all (h.sink e) t)
      ∙ ap (λ d. d ++ es) (push_all-delivered (h.sink e) t)
      ∙ append_assoc s.delivered (e ∷ []) es

  -- The buffer does not grow past its bound.
  abbrev IsBounded : Errors E → Type 0
  IsBounded s = length s.pending ≤ max_pending

  report_locked-told : (what : Bytes) (s : Errors E) → (report_locked h what s).told ≡ s.told
  unfolding report_locked
  report_locked-told what s = ground arith

  report_locked-IsBounded :
      (what : Bytes) (s : Errors E) → IsBounded s → IsBounded (report_locked h what s)
  unfolding report_locked
  report_locked-IsBounded what s b = ground (arith, b, length-append s.pending (what ∷ []))

  report_all-told : (es : List Bytes) (s : Errors E) → (report_all h es s).told ≡ s.told
  unfolding report_all
  report_all-told [] s = refl
  report_all-told (e ∷ es) s = report_all-told es (report_locked h e s) ∙ report_locked-told e s

  report_all-IsBounded :
      (es : List Bytes) (s : Errors E) → IsBounded s → IsBounded (report_all h es s)
  unfolding report_all
  report_all-IsBounded [] s b = b
  report_all-IsBounded (e ∷ es) s b =
      report_all-IsBounded es (report_locked h e s) (report_locked-IsBounded e s b)

  invoke_all-IsBounded :
      (es : List Bytes) (s : Errors E) → IsBounded s → IsBounded (invoke_all h es s)
  unfolding invoke_all invoke_on_error
  invoke_all-IsBounded [] s b = b
  invoke_all-IsBounded (e ∷ es) s b = invoke_all-IsBounded es (invoke_on_error h e s) (
      if_both IsBounded h.has_on_error
        (report_all h (h.on_error e) (record s { told = s.told ++ e ∷ [] })) s
        (report_all-IsBounded (h.on_error e) (record s { told = s.told ++ e ∷ [] }) b) b)

  run_hook-IsBounded : (s : Errors E) → IsBounded s → IsBounded (run_hook h s)
  unfolding run_hook
  run_hook-IsBounded s b =
      let t = record s { deferred = drain h s.deferred } in
      if_both IsBounded h.has_hook (report_all h h.hook t) s (report_all-IsBounded h.hook t b) b

  run_hook-told : (s : Errors E) → (run_hook h s).told ≡ s.told
  unfolding run_hook
  run_hook-told s =
      let t = record s { deferred = drain h s.deferred } in
      if_both (λ (u : Errors E). u.told ≡ s.told) h.has_hook (report_all h h.hook t) s
        (report_all-told h.hook t) refl

  settled-each :
      (P : Errors E → Type 0) (q : List Bytes) (s t : Errors E) → P s → P t → P (settled q s t)
  settled-each P [] s t a b = a
  settled-each P (_ ∷ _) s t a b = b

  -- A round, if what follows it keeps a property of the state.
  round-each :
      (P : Errors E → Type 0) (others : Errors E → Errors E) (q : List Bytes) (s : Errors E)
      → ((t : Errors E) → P t → P (others t))
      → P (run_hook h s)
      → P (invoke_all h q s)
      → P (round h others q s)
  round-each P others [] s keeps hook told =
      let t = run_hook h s in settled-each P t.pending t (others t) hook (keeps t hook)
  round-each P others (b ∷ bs) s keeps hook told = keeps (invoke_all h (b ∷ bs) s) told

  rounds-IsBounded : (n : ℕ) (s : Errors E) → IsBounded s → IsBounded (rounds h n s)
  unfolding rounds
  rounds-IsBounded zero s b = b
  rounds-IsBounded (suc n) s b =
      let t = record s { pending = [] } in
      round-each IsBounded (rounds h n) s.pending t (rounds-IsBounded n)
        (run_hook-IsBounded t (omega arith)) (invoke_all-IsBounded s.pending t (omega arith))

  module _ (tells : h.has_on_error ≡ true) where
    invoke_on_error-told :
        (what : Bytes) (s : Errors E) → (invoke_on_error h what s).told ≡ s.told ++ what ∷ []
    unfolding invoke_on_error
    invoke_on_error-told what s =
        let t = record s { told = s.told ++ what ∷ [] } in
        if_each (λ (u : Errors E). u.told ≡ t.told) h.has_on_error
          (report_all h (h.on_error what) t) s (λ _. report_all-told (h.on_error what) t)
          (λ f. absurd (let x : true ≡ false = sym tells ∙ f in cc))

    invoke_all-told : (es : List Bytes) (s : Errors E) → (invoke_all h es s).told ≡ s.told ++ es
    unfolding invoke_all
    invoke_all-told [] s = sym (append-nil s.told)
    invoke_all-told (e ∷ es) s =
        invoke_all-told es (invoke_on_error h e s)
        ∙ ap (λ d. d ++ es) (invoke_on_error-told e s)
        ∙ append_assoc s.told (e ∷ []) es

    -- More was told.
    abbrev TellsMore : List Bytes → Errors E → Type 0
    TellsMore es t = (more : List Bytes) × (t.told ≡ es ++ more)

    TellsMore-refl : (s : Errors E) → TellsMore s.told s
    TellsMore-refl s = ([], sym (append-nil s.told))

    run_hook-TellsMore :
        (es : List Bytes) (s : Errors E) → TellsMore es s → TellsMore es (run_hook h s)
    run_hook-TellsMore es s (more, e) = (more, run_hook-told s ∙ e)

    invoke_all-TellsMore :
        (es bs : List Bytes) (s : Errors E) → TellsMore es s → TellsMore es (invoke_all h bs s)
    invoke_all-TellsMore es bs s (more, e) =
        (more ++ bs, invoke_all-told bs s ∙ ap (λ d. d ++ bs) e ∙ append_assoc es more bs)

    rounds-TellsMore :
        (es : List Bytes) (n : ℕ) (s : Errors E) → TellsMore es s → TellsMore es (rounds h n s)
    unfolding rounds
    rounds-TellsMore es zero s m = m
    rounds-TellsMore es (suc n) s m =
        let t = record s { pending = [] } in
        round-each (TellsMore es) (rounds h n) s.pending t (rounds-TellsMore es n)
          (run_hook-TellsMore es t m) (invoke_all-TellsMore es s.pending t m)

    round-first :
        (n : ℕ) (q : List Bytes) (s : Errors E) → TellsMore (s.told ++ q) (round h (rounds h n) q s)
    round-first n [] s =
        subst (λ es. TellsMore es (round h (rounds h n) [] s)) (sym (append-nil s.told))
          (round-each (TellsMore s.told) (rounds h n) [] s (rounds-TellsMore s.told n)
            (run_hook-TellsMore s.told s (TellsMore-refl s))
            (invoke_all-TellsMore s.told [] s (TellsMore-refl s)))
    round-first n (b ∷ bs) s =
        let t = invoke_all h (b ∷ bs) s in
        rounds-TellsMore (s.told ++ b ∷ bs) n t
          ([], invoke_all-told (b ∷ bs) s ∙ sym (append-nil (s.told ++ b ∷ bs)))

-- A drain that is not inside another one, of a buffer within its bound, calls `on_error`, if it is set,
-- with every error that waits, in their order,
-- before any that the handlers cause meanwhile; it ends, whatever the handlers do, the next one can
-- run, and no more than 64 errors wait then.
pub drain_pending_errors-Drains :
    {E : Type 0} (h : Handlers E) (s : Errors E)
    → h.has_on_error ≡ true
    → s.draining ≡ false
    → length s.pending ≤ 64
    → let t = drain_pending_errors h s in
      ((more : List Bytes) × (t.told ≡ (s.told ++ s.pending) ++ more))
      × (t.draining ≡ false)
      × (length t.pending ≤ 64)
unfolding drain_pending_errors rounds
drain_pending_errors-Drains h s tells idle bounded = rw idle (
  round-first h tells 63 s.pending (record s { draining = true; pending = [] }),
  refl,
  rounds-IsBounded h max_pending (record s { draining = true }) bounded,
)

take-snoc :
    {E : Type 0} (n : ℕ) (xs : List E) (x : E)
    → take n (xs ++ x ∷ [])
      ≡ (if leb n (length (take n xs)) then take n xs else take n xs ++ x ∷ [])
take-snoc zero xs x = refl
take-snoc (suc zero) [] x = refl
take-snoc (suc (suc n)) [] x = ground arith
take-snoc (suc n) (y ∷ xs) x = ground (arith, take-snoc n xs x)

-- All that a sink pushes while it is called with these errors.
unfoldable pub caused : {E : Type 0} → Handlers E → List E → List E
caused h [] = []
caused h (e ∷ es) = h.sink e ++ caused h es

module _ {E : Type 0} where
  -- The queue has the first 256 of what was pushed.
  abbrev Queued : List E → DeferredErrorSink E → Type 0
  Queued pushed s = s.queue ≡ take 256 pushed

  push-Queued :
      (pushed : List E) (e : E) (s : DeferredErrorSink E)
      → Queued pushed s
      → Queued (pushed ++ e ∷ []) (push e s)
  unfolding push
  push-Queued pushed e s q =
      if_pair (λ (t : DeferredErrorSink E) (d : List E). t.queue ≡ d)
        (leb max_queued (length s.queue)) (record s { dropped = (s.dropped + 1) % 2 ^ 64 })
        (record s { queue = s.queue ++ e ∷ [] }) s.queue (s.queue ++ e ∷ []) refl refl
      ∙ ap (λ l. if leb 256 (length l) then l else l ++ e ∷ []) q
      ∙ sym (take-snoc 256 pushed e)

  push_all-Queued :
      (pushed es : List E) (s : DeferredErrorSink E)
      → Queued pushed s
      → Queued (pushed ++ es) (push_all es s)
  unfolding push_all
  push_all-Queued pushed [] s q = q ∙ ap (take 256) (sym (append-nil pushed))
  push_all-Queued pushed (e ∷ es) s q =
      push_all-Queued (pushed ++ e ∷ []) es (push e s) (push-Queued pushed e s q)
      ∙ ap (take 256) (append_assoc pushed (e ∷ []) es)

  deliver-Queued :
      (h : Handlers E) (pushed es : List E) (s : DeferredErrorSink E)
      → Queued pushed s
      → Queued (pushed ++ caused h es) (deliver h es s)
  unfolding deliver caused
  deliver-Queued h pushed [] s q = q ∙ ap (take 256) (sym (append-nil pushed))
  deliver-Queued h pushed (e ∷ es) s q =
      let t = record s { delivered = s.delivered ++ e ∷ [] } in
      deliver-Queued h (pushed ++ h.sink e) es (push_all (h.sink e) t)
        (push_all-Queued pushed (h.sink e) t q)
      ∙ ap (take 256) (append_assoc pushed (h.sink e) (caused h es))

-- A drain of the engine's buffer calls the sink once with each error that was in it, in their order,
-- and takes them out: what the buffer holds afterwards are the first 256 of the errors that the sink
-- pushed meanwhile. Without a sink none is called, and the buffer is emptied.
pub drain-delivered :
    {E : Type 0} (h : Handlers E) (s : DeferredErrorSink E)
    → ((drain h s).delivered ≡ (if h.has_sink then s.delivered ++ s.queue else s.delivered))
      × ((drain h s).queue ≡ (if h.has_sink then take 256 (caused h s.queue) else []))
unfolding drain
drain-delivered {E} h s =
    let t = record s { queue = [] } in
    (
      if_pair (λ (u : DeferredErrorSink E) (d : List E). u.delivered ≡ d) h.has_sink
          (deliver h s.queue t) t (s.delivered ++ s.queue) s.delivered
          (deliver-delivered h s.queue t) refl,
      if_pair (λ (u : DeferredErrorSink E) (d : List E). u.queue ≡ d) h.has_sink
          (deliver h s.queue t) t (take 256 (caused h s.queue)) []
          (deliver-Queued h [] s.queue t refl) refl,
    )
