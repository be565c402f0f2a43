-- ===== src/Tests/OfStore.antt =====
-- include/fix/store: the theorems of the memory store at concrete inputs.
use fix_protocol.Prelude.{◌≡◌, List, [], ◌∷◌, codes, ◌==◌, if◌then◌else◌}
use fix_protocol.Core.Types.{ok}
use fix_protocol.Store.SortedMap.{Ascending, within, last_key}
use fix_protocol.Store.Memory.{new_store, get_messages}
use fix_protocol.Store.Memory.Replay.{Op, keep_outbound, claim, run_all, get_messages-within}

abbrev three_sent : List Op
three_sent =
    keep_outbound 3 (codes "c")
    ∷ keep_outbound 1 (codes "a")
    ∷ claim
    ∷ keep_outbound 2 (codes "b")
    ∷ []

get_messages-within_example :
    (get_messages 2 0 (run_all three_sent new_store)
      ≡ ok (
          within 2
            (if 0 == 0 then last_key (run_all three_sent new_store).outbound else 0)
            (run_all three_sent new_store).outbound))
    × Ascending (run_all three_sent new_store).outbound
get_messages-within_example = get_messages-within three_sent 2 0
