-- ===== src/Store/Memory/Replay.antt =====
-- `get_messages` of `MemoryStore`: what a replay sees.
use fix_protocol.Prelude.{ℕ, ◌≡◌, refl, List, [], ◌∷◌, some, Bytes, arith, ◌==◌, if◌then◌else◌, ap}
use fix_protocol.Core.Types.{ok}
use fix_protocol.Store.SortedMap.{
  Ascending, find, within, last_key, assign-Ascending, find-assign, walk-within,
}
use fix_protocol.Store.Memory.{
  MemoryStore, new_store, set_next_sender_seq_num, set_next_target_seq_num, incr_sender_seq_num,
  incr_target_seq_num, next_sender_seq_num_incr, advance_next_target_seq_num, store_outbound,
  store_inbound, get_messages, reset, refresh,
}

-- The maps of a store are maps.
abbrev pub IsOrdered : MemoryStore → Type 0
IsOrdered s = Ascending s.outbound × Ascending s.inbound

-- The operations that change a store.
pub data Op : Type 0 where
  set_sender set_target advance : ℕ → Op
  incr_sender incr_target claim start_over reread : Op
  keep_outbound keep_inbound : ℕ → Bytes → Op

unfoldable pub run : Op → MemoryStore → MemoryStore
run (set_sender n) s = (set_next_sender_seq_num n s).0
run (set_target n) s = (set_next_target_seq_num n s).0
run (advance n) s = (advance_next_target_seq_num n s).0
run incr_sender s = (incr_sender_seq_num s).0
run incr_target s = (incr_target_seq_num s).0
run claim s = (next_sender_seq_num_incr s).0
run start_over s = (reset s).0
run reread s = (refresh s).0
run (keep_outbound n raw) s = (store_outbound n raw s).0
run (keep_inbound n raw) s = (store_inbound n raw s).0

run-IsOrdered : (op : Op) (s : MemoryStore) → IsOrdered s → IsOrdered (run op s)
unfolding run set_next_sender_seq_num set_next_target_seq_num advance_next_target_seq_num
    incr_sender_seq_num incr_target_seq_num next_sender_seq_num_incr reset refresh store_outbound
    store_inbound
run-IsOrdered (set_sender n) s h = h
run-IsOrdered (set_target n) s h = h
run-IsOrdered (advance n) s h = ground arith
run-IsOrdered incr_sender s h = h
run-IsOrdered incr_target s h = h
run-IsOrdered claim s h = h
run-IsOrdered start_over s h = (tt, tt)
run-IsOrdered reread s h = h
run-IsOrdered (keep_outbound n raw) s h = (assign-Ascending n raw s.outbound h.0, h.1)
run-IsOrdered (keep_inbound n raw) s h = (h.0, assign-Ascending n raw s.inbound h.1)

unfoldable pub run_all : List Op → MemoryStore → MemoryStore
run_all [] s = s
run_all (op ∷ ops) s = run_all ops (run op s)

run_all-IsOrdered : (ops : List Op) (s : MemoryStore) → IsOrdered s → IsOrdered (run_all ops s)
unfolding run_all
run_all-IsOrdered [] s h = h
run_all-IsOrdered (op ∷ ops) s h = run_all-IsOrdered ops (run op s) (run-IsOrdered op s h)

-- Whatever was done to a new store, a replay is given the outbound frames whose numbers are from
-- `first` to `last`, a `last` of 0 being the greatest number stored, each once and in ascending
-- order.
pub get_messages-within :
    (ops : List Op) (first last : ℕ)
    → let s = run_all ops new_store in
      (get_messages first last s
        ≡ ok (within first (if last == 0 then last_key s.outbound else last) s.outbound))
      × Ascending s.outbound
unfolding get_messages
get_messages-within ops first last =
    let s = run_all ops new_store in
    let h = (run_all-IsOrdered ops new_store (tt, tt)).0 in
    (ap ok (walk-within first (if last == 0 then last_key s.outbound else last) s.outbound h), h)

-- A stored outbound frame is the one found under its number, in place of any before it, and the
-- frames under the other numbers and all inbound ones are as they were.
pub store_outbound-find :
    (k n : ℕ) (raw : Bytes) (s : MemoryStore)
    → let t = (store_outbound n raw s).0 in
      (find k t.outbound ≡ (if k == n then some raw else find k s.outbound))
      × (t.inbound ≡ s.inbound)
unfolding store_outbound
store_outbound-find k n raw s = (find-assign k n raw s.outbound, refl)
