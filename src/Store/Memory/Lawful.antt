-- ===== src/Store/Memory/Lawful.antt =====
-- `MemoryStore` keeps the contract of a message store.
use fix_protocol.Prelude.{refl, inl, arith}
use fix_protocol.Store.Memory.{
  memory_store, set_next_sender_seq_num, set_next_target_seq_num, next_sender_seq_num_incr,
  advance_next_target_seq_num, store_outbound, store_inbound, reset,
}
use fix_protocol.Store.{Contract}

-- The memory store is one of the stores that a session may run with.
pub memory_store-Contract : Contract memory_store
unfolding memory_store set_next_sender_seq_num set_next_target_seq_num next_sender_seq_num_incr
    advance_next_target_seq_num store_outbound store_inbound reset
memory_store-Contract = record {
  set_sender = λ n s. (refl, inl (refl, refl));
  set_target = λ n s. (refl, inl (refl, refl));
  claim = λ s. (refl, inl (refl, refl));
  advance = λ n s. ground arith;
  keep_outbound = λ n raw s. (refl, refl);
  keep_inbound = λ n raw s. (refl, refl);
  reset_both = λ s h. (refl, refl);
}
