-- ===== src/Tests/OfErrors.antt =====
-- src/session/session.cpp and include/fix/engine.hpp: the theorems of the error buffers at concrete
-- inputs.
use fix_protocol.Prelude.{
  ℕ, ◌≤◌, ◌≡◌, refl, true, false, List, [], ◌∷◌, ◌++◌, Bytes, codes, arith, if◌then◌else◌, length,
  take,
}
use fix_protocol.Errors.{Handlers, drain, Errors, drain_pending_errors}
use fix_protocol.Errors.Drained.{drain_pending_errors-Drains, drain-delivered, caused}

-- A handler that fails again on every error, and a sink that pushes one code for another.
abbrev stubborn : Handlers ℕ
stubborn = record {
  has_on_error = true;
  has_hook = true;
  has_sink = true;
  on_error = λ what. codes "again" ∷ [];
  sink = λ e. 9 ∷ [];
  hook = [];
}

abbrev two_waiting : Errors ℕ
two_waiting = record {
  errors = 2;
  pending = codes "a" ∷ codes "b" ∷ [];
  told = codes "before" ∷ [];
  draining = false;
  deferred = record { queue = 5 ∷ 6 ∷ []; dropped = 0; delivered = [] };
}

drain_pending_errors-Drains_example :
    let t = drain_pending_errors stubborn two_waiting in
    ((more : List Bytes) × (t.told ≡ (two_waiting.told ++ two_waiting.pending) ++ more))
    × (t.draining ≡ false)
    × (length t.pending ≤ 64)
drain_pending_errors-Drains_example =
    drain_pending_errors-Drains stubborn two_waiting refl refl (omega arith)

drain-delivered_example :
    ((drain stubborn two_waiting.deferred).delivered ≡ (
      if stubborn.has_sink
      then two_waiting.deferred.delivered ++ two_waiting.deferred.queue
      else two_waiting.deferred.delivered))
    × ((drain stubborn two_waiting.deferred).queue
        ≡ (if stubborn.has_sink then take 256 (caused stubborn two_waiting.deferred.queue) else []))
drain-delivered_example = drain-delivered stubborn two_waiting.deferred
