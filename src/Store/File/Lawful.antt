-- ===== src/Store/File/Lawful.antt =====
-- src/store/file_store.cpp: `FileStore` as a message store, and the contract that it keeps.
use fix_protocol.Prelude.{
  ℕ, ◌+◌, ◌≡◌, refl, ◌⊎◌, inl, inr, Bool, true, false, not, ◌||◌, Bytes, arith, max, leb, ◌==◌,
  if◌then◌else◌, if_each, if_both, subst, [], ◌∙◌,
}
use fix_protocol.Core.Types.{Result, ok, err, Done}
use fix_protocol.Store.{MessageStore, Contract, Fails, wrap_seq}
use fix_protocol.Store.File.Disk.{Os, Disk, exists}
use fix_protocol.Store.File.Log.{record_text}
use fix_protocol.Store.File.State.{
  FileStore, max_seq, out_file, in_file, fails, persist, or_restore_sender, or_restore_target,
  set_next_sender_seq_num, set_next_target_seq_num, incr_sender_seq_num, incr_target_seq_num,
  next_sender_seq_num_incr, advance_next_target_seq_num,
}
use fix_protocol.Store.File.Frames.{
  maybe_fsync, append, indexed, done_or_fails, store_outbound, store_inbound, get_messages,
}
use fix_protocol.Store.File.Lifecycle.{
  reset, refresh, close, and_then, empty_log, empty_if_there, truncated, shut, open_logs,
}

unfoldable pub file_store : Os → MessageStore FileStore
file_store os = record {
  next_sender_seq_num = λ s. s.sender_seq;
  next_target_seq_num = λ s. s.target_seq;
  set_next_sender_seq_num = set_next_sender_seq_num os;
  set_next_target_seq_num = set_next_target_seq_num os;
  incr_sender_seq_num = incr_sender_seq_num os;
  incr_target_seq_num = incr_target_seq_num os;
  next_sender_seq_num_incr = next_sender_seq_num_incr os;
  advance_next_target_seq_num = advance_next_target_seq_num os;
  store_outbound = store_outbound os;
  store_inbound = store_inbound os;
  get_messages = get_messages os;
  reset = reset os;
  refresh = refresh os;
  close = close os;
}

-- What an operation that sets the sender counter to `n` leaves: it succeeds with `a`, or it fails
-- and the counter is what it was.
SetsSender : {A : Type 0} → A → ℕ → FileStore → FileStore × Result A → Type 0
SetsSender a n s r =
    (r.0.target_seq ≡ s.target_seq)
    × ((r.1 ≡ ok a) × (r.0.sender_seq ≡ n) ⊎ Fails r.1 × (r.0.sender_seq ≡ s.sender_seq))

SetsTarget : ℕ → FileStore → FileStore × Result Done → Type 0
SetsTarget n s r =
    (r.0.sender_seq ≡ s.sender_seq)
    × ((r.1 ≡ ok tt) × (r.0.target_seq ≡ n) ⊎ Fails r.1 × (r.0.target_seq ≡ s.target_seq))

module _ (s : FileStore) (n : ℕ) where
  or_restore_sender-Sets :
      {A : Type 0} (a : A) (r : FileStore × Result Done)
      → r.0.sender_seq ≡ n
      → r.0.target_seq ≡ s.target_seq
      → SetsSender a n s (or_restore_sender a s.sender_seq r)
  unfolding SetsSender
  or_restore_sender-Sets a (t, ok _) set same = (same, inl (refl, set))
  or_restore_sender-Sets a (t, err e) set same = (same, inr (tt, refl))

  or_restore_target-Sets :
      (r : FileStore × Result Done)
      → r.0.target_seq ≡ n
      → r.0.sender_seq ≡ s.sender_seq
      → SetsTarget n s (or_restore_target s.target_seq r)
  unfolding SetsTarget
  or_restore_target-Sets (t, ok _) set same = (same, inl (refl, set))
  or_restore_target-Sets (t, err e) set same = (same, inr (tt, refl))

  fails-SetsSender : {A : Type 0} (a : A) → SetsSender a n s (fails s)
  unfolding SetsSender
  fails-SetsSender a = (refl, inr (tt, refl))

  fails-SetsTarget : SetsTarget n s (fails s)
  unfolding SetsTarget
  fails-SetsTarget = (refl, inr (tt, refl))

module _ (os : Os) where
  set_sender-Sets : (n : ℕ) (s : FileStore) → SetsSender tt n s (set_next_sender_seq_num os n s)
  unfolding set_next_sender_seq_num persist
  set_sender-Sets n s =
      let next = persist os (record s { sender_seq = n }) in
      if_each (SetsSender tt n s) s.closed (fails s) (or_restore_sender tt s.sender_seq next)
        (λ _. fails-SetsSender s n tt) (λ _. or_restore_sender-Sets s n tt next refl refl)

  set_target-Sets : (n : ℕ) (s : FileStore) → SetsTarget n s (set_next_target_seq_num os n s)
  unfolding set_next_target_seq_num persist
  set_target-Sets n s =
      let next = persist os (record s { target_seq = n }) in
      if_each (SetsTarget n s) s.closed (fails s) (or_restore_target s.target_seq next)
        (λ _. fails-SetsTarget s n) (λ _. or_restore_target-Sets s n next refl refl)

  claim-Sets :
      (s : FileStore)
      → SetsSender s.sender_seq (wrap_seq (s.sender_seq + 1)) s (next_sender_seq_num_incr os s)
  unfolding next_sender_seq_num_incr persist
  claim-Sets s =
      let n = wrap_seq (s.sender_seq + 1) in
      let next = persist os (record s { sender_seq = n }) in
      let P = SetsSender s.sender_seq n s in
      let claimed = or_restore_sender s.sender_seq s.sender_seq next in
      if_each P s.closed (fails s) (if s.sender_seq == max_seq then fails s else claimed)
        (λ _. fails-SetsSender s n s.sender_seq)
        λ _.
          if_each P (s.sender_seq == max_seq) (fails s) claimed
            (λ _. fails-SetsSender s n s.sender_seq)
            (λ _. or_restore_sender-Sets s n s.sender_seq next refl refl)

  advance-Sets :
      (n : ℕ) (s : FileStore)
      → SetsTarget (max s.target_seq n) s (advance_next_target_seq_num os n s)
  unfolding advance_next_target_seq_num SetsTarget persist
  advance-Sets n s =
      let next = persist os (record s { target_seq = n }) in
      let P = SetsTarget (max s.target_seq n) s in
      let set = or_restore_target s.target_seq next in
      if_each P s.closed (fails s) (if leb n s.target_seq then (s, ok tt) else set)
        (λ _. fails-SetsTarget s (max s.target_seq n))
        λ _.
          if_each P (leb n s.target_seq) (s, ok tt) set (λ h. (refl, inl (refl, ground (arith, h))))
            λ h.
              let top : n ≡ max s.target_seq n = ground (arith, h) in
              subst (λ k. SetsTarget k s set) top (or_restore_target-Sets s n next refl refl)

  -- The counters stay.
  abbrev Same : FileStore → FileStore → Type 0
  Same s t = (t.sender_seq ≡ s.sender_seq) × (t.target_seq ≡ s.target_seq)

  maybe_fsync-Same : (s : FileStore) → Same s (maybe_fsync os s).0
  unfolding maybe_fsync
  maybe_fsync-Same s = ground arith

  indexed-Same :
      (n pos : ℕ) (s : FileStore) (r : FileStore × Bool) → Same s r.0 → Same s (indexed n pos r).0
  indexed-Same n pos s (t, true) h = h
  indexed-Same n pos s (t, false) h = h

  done_or_fails-Same :
      (s : FileStore) (r : FileStore × Bool) → Same s r.0 → Same s (done_or_fails r).0
  done_or_fails-Same s (t, true) h = h
  done_or_fails-Same s (t, false) h = h

  store_outbound-Same : (n : ℕ) (raw : Bytes) (s : FileStore) → Same s (store_outbound os n raw s).0
  unfolding store_outbound
  store_outbound-Same n raw s =
      let (d, st) = append os (out_file s.prefix) (record_text n raw) s.out_stream s.disk in
      let t = record s { disk = d; out_stream = st } in
      let kept = indexed n s.out_stream.place (maybe_fsync os t) in
      let P = λ (r : FileStore × Result Done). Same s r.0 in
      if_both P (s.closed || not s.out_stream.is_open || not s.out_stream.good) (fails s)
        (if not st.good then fails t else kept) (refl, refl)
        (if_both P (not st.good) (fails t) kept (refl, refl)
          (indexed-Same n s.out_stream.place s (maybe_fsync os t) (maybe_fsync-Same t)))

  store_inbound-Same : (n : ℕ) (raw : Bytes) (s : FileStore) → Same s (store_inbound os n raw s).0
  unfolding store_inbound
  store_inbound-Same n raw s =
      let (d, st) = append os (in_file s.prefix) (record_text n raw) s.in_stream s.disk in
      let t = record s { disk = d; in_stream = st } in
      let kept = done_or_fails (maybe_fsync os t) in
      let P = λ (r : FileStore × Result Done). Same s r.0 in
      if_both P (s.closed || not s.in_stream.is_open || not s.in_stream.good) (fails s)
        (if not st.good then fails t else kept) (refl, refl)
        (if_both P (not st.good) (fails t) kept (refl, refl)
          (done_or_fails-Same s (maybe_fsync os t) (maybe_fsync-Same t)))

  -- What has both counters at 1, if it succeeded.
  BothOne : FileStore × Result Done → Type 0
  BothOne r = r.1 ≡ ok tt → (r.0.sender_seq ≡ 1) × (r.0.target_seq ≡ 1)

  and_then-BothOne :
      (r : FileStore × Result Done) (next : FileStore → FileStore × Result Done)
      → (r.0.sender_seq ≡ 1) × (r.0.target_seq ≡ 1)
      → ((t : FileStore) → (t.sender_seq ≡ 1) × (t.target_seq ≡ 1) → BothOne (next t))
      → BothOne (and_then r next)
  unfolding BothOne
  and_then-BothOne (t, ok _) next one h = h t one
  and_then-BothOne (t, err e) next one h = λ x. cc

  truncated-Same : (s : FileStore) (r : Disk × Bool) → Same s (truncated s r).0
  truncated-Same s (d, true) = (refl, refl)
  truncated-Same s (d, false) = (refl, refl)

  empty_log-Same : (name : Bytes) (s : FileStore) → Same s (empty_log os name s).0
  unfolding empty_log
  empty_log-Same name s = truncated-Same s (empty_if_there os name (exists os name s.disk))

  reset-BothOne : (s : FileStore) → BothOne (reset os s)
  unfolding reset persist open_logs BothOne
  reset-BothOne s =
      let cleared = record s {
        sender_seq = 1;
        target_seq = 1;
        out_index = [];
        out_stream = shut;
        in_stream = shut;
      } in
      let out = empty_log os (out_file s.prefix) cleared in
      if_each BothOne s.closed (fails s)
        (and_then out λ t.
          and_then (empty_log os (in_file s.prefix) t)
            λ u. and_then (persist os u) λ v. (open_logs os v, ok tt))
        (λ _ e. cc)
        λ _.
          and_then-BothOne out
            (λ t.
              and_then (empty_log os (in_file s.prefix) t)
                λ u. and_then (persist os u) λ v. (open_logs os v, ok tt))
            (empty_log-Same (out_file s.prefix) cleared)
            λ t one.
              let inn = empty_log os (in_file s.prefix) t in
              let same = empty_log-Same (in_file s.prefix) t in
              and_then-BothOne inn (λ u. and_then (persist os u) λ v. (open_logs os v, ok tt))
                (same.0 ∙ one.0, same.1 ∙ one.1)
                λ u two.
                  and_then-BothOne (persist os u) (λ v. (open_logs os v, ok tt)) two
                    (λ v three _. three)

  -- Whichever system calls fail, the file store keeps the contract of a message store: a setter or
  -- a claim has its effect or reports an error and changes neither counter, an advance never
  -- rewinds, storing frames moves no counter, and a reset that succeeds starts both at 1.
  pub file_store-Contract : Contract (file_store os)
  unfolding file_store SetsSender SetsTarget BothOne
  file_store-Contract = record {
    set_sender = set_sender-Sets;
    set_target = set_target-Sets;
    claim = claim-Sets;
    advance = advance-Sets;
    keep_outbound = store_outbound-Same;
    keep_inbound = store_inbound-Same;
    reset_both = reset-BothOne;
  }
