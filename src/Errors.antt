-- ===== src/Errors.antt =====
-- src/session/session.cpp and include/fix/engine.hpp: the two buffers of errors that are reported under
-- the send lock and delivered once it is released.
pub mod Drained
use fix_protocol.Prelude.{
  ℕ, zero, suc, ◌+◌, ◌%◌, ◌^◌, Bool, true, false, List, [], ◌∷◌, ◌++◌, Bytes, if◌then◌else◌, ltb,
  leb, length,
}

-- What user code does: the errors that are reported under the send lock while `on_error` handles one,
-- those that the engine's sink causes for the session, and the codes that it causes for the engine.
pub record Handlers (E : Type 0) : Type 0 where
  pub has_on_error : Bool
  pub has_hook : Bool
  pub has_sink : Bool
  pub on_error : Bytes → List Bytes
  pub sink : E → List E
  pub hook : List Bytes

abbrev pub max_queued : ℕ
max_queued = 256

-- `DeferredErrorSink`, with the codes that its sink was called with.
pub record DeferredErrorSink (E : Type 0) : Type 0 where
  pub queue : List E
  pub dropped : ℕ
  pub delivered : List E

unfoldable pub push : {E : Type 0} → E → DeferredErrorSink E → DeferredErrorSink E
push e s =
    if leb max_queued (length s.queue)
    then record s { dropped = (s.dropped + 1) % 2 ^ 64 }
    else record s { queue = s.queue ++ e ∷ [] }

unfoldable pub push_all : {E : Type 0} → List E → DeferredErrorSink E → DeferredErrorSink E
push_all [] s = s
push_all (e ∷ es) s = push_all es (push e s)

-- The calls of the sink; what one pushes waits for the next drain.
unfoldable pub deliver :
    {E : Type 0} → Handlers E → List E → DeferredErrorSink E → DeferredErrorSink E
deliver h [] s = s
deliver h (e ∷ es) s =
    deliver h es (push_all (h.sink e) (record s { delivered = s.delivered ++ e ∷ [] }))

unfoldable pub drain : {E : Type 0} → Handlers E → DeferredErrorSink E → DeferredErrorSink E
drain h s = let t = record s { queue = [] } in if h.has_sink then deliver h s.queue t else t

abbrev pub max_pending : ℕ
max_pending = 64

-- The errors of a session: how many, those that wait, those that `on_error` was called with, whether a
-- drain is under way, and the sink of the engine.
pub record Errors (E : Type 0) : Type 0 where
  pub errors : ℕ
  pub pending : List Bytes
  pub told : List Bytes
  pub draining : Bool
  pub deferred : DeferredErrorSink E

-- `report` while this thread has the send lock.
unfoldable pub report_locked : {E : Type 0} → Handlers E → Bytes → Errors E → Errors E
report_locked h what s =
    let t = record s { errors = (s.errors + 1) % 2 ^ 64 } in
    if h.has_on_error
    then (if ltb (length s.pending) max_pending
        then record t { pending = s.pending ++ what ∷ [] }
        else t)
    else t

unfoldable pub report_all : {E : Type 0} → Handlers E → List Bytes → Errors E → Errors E
report_all h [] s = s
report_all h (what ∷ rest) s = report_all h rest (report_locked h what s)

-- `invoke_on_error`: the handler may send, and what goes wrong then is reported under the lock.
unfoldable pub invoke_on_error : {E : Type 0} → Handlers E → Bytes → Errors E → Errors E
invoke_on_error h what s =
    if h.has_on_error
    then report_all h (h.on_error what) (record s { told = s.told ++ what ∷ [] })
    else s

unfoldable pub invoke_all : {E : Type 0} → Handlers E → List Bytes → Errors E → Errors E
invoke_all h [] s = s
invoke_all h (what ∷ rest) s = invoke_all h rest (invoke_on_error h what s)

unfoldable pub run_hook : {E : Type 0} → Handlers E → Errors E → Errors E
run_hook h s =
    if h.has_hook then report_all h h.hook (record s { deferred = drain h s.deferred }) else s

abbrev pub settled : {A : Type 0} → List Bytes → A → A → A
settled [] done again = done
settled (_ ∷ _) done again = again

-- A round with a batch, and the others.
abbrev pub round :
    {E : Type 0} → Handlers E → (Errors E → Errors E) → List Bytes → Errors E → Errors E
round h others [] s = let t = run_hook h s in settled t.pending t (others t)
round h others (b ∷ bs) s = others (invoke_all h (b ∷ bs) s)

-- The loop, of so many rounds at most.
unfoldable pub rounds : {E : Type 0} → Handlers E → ℕ → Errors E → Errors E
rounds h zero s = s
rounds h (suc n) s = round h (rounds h n) s.pending (record s { pending = [] })

unfoldable pub drain_pending_errors : {E : Type 0} → Handlers E → Errors E → Errors E
drain_pending_errors h s =
    let t = rounds h max_pending (record s { draining = true }) in
    if s.draining then s else record t { draining = false }
