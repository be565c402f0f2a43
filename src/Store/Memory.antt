-- ===== src/Store/Memory.antt =====
-- include/fix/store/memory_store.hpp: `MemoryStore`.
pub mod Replay
pub mod Lawful
use fix_protocol.Prelude.{ℕ, ◌+◌, ◌==◌, if◌then◌else◌, Bool, true, false, List, [], ◌∷◌, Bytes, ltb}
use fix_protocol.Core.Types.{Result, ok, Done}
use fix_protocol.Store.SortedMap.{Entry, assign, lower_bound, up_to, last_key}
use fix_protocol.Store.{MessageStore, wrap_seq}

pub record MemoryStore : Type 0 where
  pub sender_seq : ℕ
  pub target_seq : ℕ
  pub outbound : List Entry
  pub inbound : List Entry

-- The default constructor.
abbrev pub new_store : MemoryStore
new_store = record { sender_seq = 1; target_seq = 1; outbound = []; inbound = [] }

unfoldable pub set_next_sender_seq_num : ℕ → MemoryStore → MemoryStore × Result Done
set_next_sender_seq_num n s = (record s { sender_seq = n }, ok tt)

unfoldable pub set_next_target_seq_num : ℕ → MemoryStore → MemoryStore × Result Done
set_next_target_seq_num n s = (record s { target_seq = n }, ok tt)

unfoldable pub incr_sender_seq_num : MemoryStore → MemoryStore × Result Done
incr_sender_seq_num s = (record s { sender_seq = wrap_seq (s.sender_seq + 1) }, ok tt)

unfoldable pub incr_target_seq_num : MemoryStore → MemoryStore × Result Done
incr_target_seq_num s = (record s { target_seq = wrap_seq (s.target_seq + 1) }, ok tt)

-- `fetch_add` returns the previous value.
unfoldable pub next_sender_seq_num_incr : MemoryStore → MemoryStore × Result ℕ
next_sender_seq_num_incr s =
    (record s { sender_seq = wrap_seq (s.sender_seq + 1) }, ok s.sender_seq)

-- The compare-and-exchange loop, which ends when the counter is `n` or more.
unfoldable pub advance_next_target_seq_num : ℕ → MemoryStore → MemoryStore × Result Done
advance_next_target_seq_num n s =
    (if ltb s.target_seq n then record s { target_seq = n } else s, ok tt)

unfoldable pub store_outbound : ℕ → Bytes → MemoryStore → MemoryStore × Result Done
store_outbound seq raw s = (record s { outbound = assign seq raw s.outbound }, ok tt)

unfoldable pub store_inbound : ℕ → Bytes → MemoryStore → MemoryStore × Result Done
store_inbound seq raw s = (record s { inbound = assign seq raw s.inbound }, ok tt)

-- The calls of the callback.
unfoldable pub get_messages : ℕ → ℕ → MemoryStore → Result (List Entry)
get_messages first last s =
    ok (up_to (if last == 0 then last_key s.outbound else last) (lower_bound first s.outbound))

unfoldable pub reset : MemoryStore → MemoryStore × Result Done
reset s = (record s { sender_seq = 1; target_seq = 1; outbound = []; inbound = [] }, ok tt)

unfoldable pub refresh : MemoryStore → MemoryStore × Result Done
refresh s = (s, ok tt)

abbrev next_sender_seq_num : MemoryStore → ℕ
next_sender_seq_num s = s.sender_seq

abbrev next_target_seq_num : MemoryStore → ℕ
next_target_seq_num s = s.target_seq

unfoldable pub memory_store : MessageStore MemoryStore
memory_store = record {
  next_sender_seq_num = next_sender_seq_num;
  next_target_seq_num = next_target_seq_num;
  set_next_sender_seq_num = set_next_sender_seq_num;
  set_next_target_seq_num = set_next_target_seq_num;
  incr_sender_seq_num = incr_sender_seq_num;
  incr_target_seq_num = incr_target_seq_num;
  next_sender_seq_num_incr = next_sender_seq_num_incr;
  advance_next_target_seq_num = advance_next_target_seq_num;
  store_outbound = store_outbound;
  store_inbound = store_inbound;
  get_messages = get_messages;
  reset = reset;
  refresh = refresh;
  close = λ s. (s, ok tt);
}
