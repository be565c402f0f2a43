-- ===== src/Store.antt =====
-- include/fix/store/message_store.hpp: the interface of a message store, and its contract.
pub mod SortedMap
pub mod Memory
pub mod File
use fix_protocol.Prelude.{ℕ, ◌+◌, ◌%◌, ◌^◌, ◌≤◌, ◌≡◌, ◌⊎◌, List, Bytes, max, All}
use fix_protocol.Core.Types.{ErrorCode, Result, ok, err, Done}
use fix_protocol.Store.SortedMap.{Entry, Ascending}

-- Arithmetic of sequence numbers.
abbrev pub wrap_seq : ℕ → ℕ
wrap_seq n = n % 2 ^ 64

-- The operations of `IMessageStore` on stores `S`. `get_messages` has the calls of its callback as
-- its value, in their order.
pub record MessageStore (S : Type 0) : Type 0 where
  pub next_sender_seq_num : S → ℕ
  pub next_target_seq_num : S → ℕ
  pub set_next_sender_seq_num : ℕ → S → S × Result Done
  pub set_next_target_seq_num : ℕ → S → S × Result Done
  pub incr_sender_seq_num : S → S × Result Done
  pub incr_target_seq_num : S → S × Result Done
  pub next_sender_seq_num_incr : S → S × Result ℕ
  pub advance_next_target_seq_num : ℕ → S → S × Result Done
  pub store_outbound : ℕ → Bytes → S → S × Result Done
  pub store_inbound : ℕ → Bytes → S → S × Result Done
  pub get_messages : ℕ → ℕ → S → Result (List Entry)
  pub reset : S → S × Result Done
  pub refresh : S → S × Result Done
  pub close : S → S × Result Done

abbrev pub Fails {ℓ} : {A : Type ℓ} → Result A → Type 0
Fails (ok _) = ⊥
Fails (err _) = Unit

-- What a session relies on of the two counters. Every operation may fail. Nothing is asked here of a
-- replay, of the plain increments, or of a reset that fails.
pub record Contract {S : Type 0} (m : MessageStore S) : Type 0 where
  -- An absolute setter sets its counter, or leaves it in place and reports; the other one stays.
  pub set_sender :
      (n : ℕ) (s : S)
      → let r = m.set_next_sender_seq_num n s in
        (m.next_target_seq_num r.0 ≡ m.next_target_seq_num s)
        × ((r.1 ≡ ok tt) × (m.next_sender_seq_num r.0 ≡ n)
            ⊎ Fails r.1 × (m.next_sender_seq_num r.0 ≡ m.next_sender_seq_num s))
  pub set_target :
      (n : ℕ) (s : S)
      → let r = m.set_next_target_seq_num n s in
        (m.next_sender_seq_num r.0 ≡ m.next_sender_seq_num s)
        × ((r.1 ≡ ok tt) × (m.next_target_seq_num r.0 ≡ n)
            ⊎ Fails r.1 × (m.next_target_seq_num r.0 ≡ m.next_target_seq_num s))
  -- A claim has the counter's value and advances it past that, or nothing is consumed.
  pub claim :
      (s : S)
      → let r = m.next_sender_seq_num_incr s in
        (m.next_target_seq_num r.0 ≡ m.next_target_seq_num s)
        × ((r.1 ≡ ok (m.next_sender_seq_num s))
              × (m.next_sender_seq_num r.0 ≡ wrap_seq (m.next_sender_seq_num s + 1))
            ⊎ Fails r.1 × (m.next_sender_seq_num r.0 ≡ m.next_sender_seq_num s))
  -- The target counter advances to at least `n`, and never goes back.
  pub advance :
      (n : ℕ) (s : S)
      → let r = m.advance_next_target_seq_num n s in
        (m.next_sender_seq_num r.0 ≡ m.next_sender_seq_num s)
        × ((r.1 ≡ ok tt) × (m.next_target_seq_num r.0 ≡ max (m.next_target_seq_num s) n)
            ⊎ Fails r.1 × (m.next_target_seq_num r.0 ≡ m.next_target_seq_num s))
  -- Keeping a frame changes no counter.
  pub keep_outbound :
      (n : ℕ) (raw : Bytes) (s : S)
      → let t = (m.store_outbound n raw s).0 in
        (m.next_sender_seq_num t ≡ m.next_sender_seq_num s)
        × (m.next_target_seq_num t ≡ m.next_target_seq_num s)
  pub keep_inbound :
      (n : ℕ) (raw : Bytes) (s : S)
      → let t = (m.store_inbound n raw s).0 in
        (m.next_sender_seq_num t ≡ m.next_sender_seq_num s)
        × (m.next_target_seq_num t ≡ m.next_target_seq_num s)
  -- A reset that succeeds starts both counters at 1.
  pub reset_both :
      (s : S)
      → (m.reset s).1 ≡ ok tt
      → (m.next_sender_seq_num (m.reset s).0 ≡ 1) × (m.next_target_seq_num (m.reset s).0 ≡ 1)
