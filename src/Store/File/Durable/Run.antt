-- ===== src/Store/File/Durable/Run.antt =====
-- src/store/file_store.cpp: the sequence file after any operations of a store.
use fix_protocol.Prelude.{
  inl, inr, ℕ, ◌^◌, ◌<◌, ◌≡◌, refl, Bool, true, false, [], ◌∷◌, Bytes, arith, if_both, List, All,
  ◌∙◌,
}
use fix_protocol.Core.Types.{Result, ok, err, Done}
use fix_protocol.Store.File.Disk.{Os, Disk, exists}
use fix_protocol.Store.File.State.{
  FileStore, persist, seq_file, out_file, in_file, fails, set_next_sender_seq_num,
  set_next_target_seq_num, incr_sender_seq_num, incr_target_seq_num, next_sender_seq_num_incr,
  advance_next_target_seq_num,
}
use fix_protocol.Store.File.Frames.{store_outbound, store_inbound}
use fix_protocol.Store.File.Durable.{
  IsSeq, IsDurable, Persisted, persist-Persisted, saved-text, set_sender-IsDurable,
  set_target-IsDurable, incr_sender-IsDurable, incr_target-IsDurable, claim-IsDurable,
  advance-IsDurable,
}
use fix_protocol.Store.File.Durable.Untouched.{
  Untouched-IsDurable, store_outbound-Untouched, store_inbound-Untouched, seq-out, seq-in,
}
use fix_protocol.Store.File.Durable.Refresh.{refresh-Untouched, open_stream-Only}
use fix_protocol.Store.File.Lifecycle.{
  open_stream, truncated, and_then, empty_if_there, empty_log, open_logs, reset, refresh, shut,
}

-- The operations of an open store on its numbers and its frames, `reset` and `refresh` included.
pub data Op : Type 0 where
  set_sender set_target advance : ℕ → Op
  incr_sender incr_target claim restores refreshes : Op
  keep_outbound keep_inbound : ℕ → Bytes → Op

-- What a caller may set a number to.
abbrev pub IsFit : Op → Type 0
IsFit (set_sender n) = IsSeq n
IsFit (set_target n) = IsSeq n
IsFit (advance n) = n < 2 ^ 64
IsFit _ = Unit {0}

unfoldable pub run : Os → Op → FileStore → FileStore
run os (set_sender n) s = (set_next_sender_seq_num os n s).0
run os (set_target n) s = (set_next_target_seq_num os n s).0
run os (advance n) s = (advance_next_target_seq_num os n s).0
run os incr_sender s = (incr_sender_seq_num os s).0
run os incr_target s = (incr_target_seq_num os s).0
run os claim s = (next_sender_seq_num_incr os s).0
run os (keep_outbound n raw) s = (store_outbound os n raw s).0
run os (keep_inbound n raw) s = (store_inbound os n raw s).0
run os restores s = (reset os s).0
run os refreshes s = (refresh os s).0

-- A reset reports success.
abbrev pub Completes : Os → Op → FileStore → Type 0
Completes os restores s = (reset os s).1 ≡ ok tt
Completes os _ s = Unit {0}

open_logs-files :
    (os : Os) (s : FileStore)
    → (open_logs os s).disk.files (seq_file s.prefix) ≡ s.disk.files (seq_file s.prefix)
unfolding open_logs
open_logs-files os s =
    let d = (open_stream os (out_file s.prefix) s.disk).0 in
    open_stream-Only os (in_file s.prefix) d (seq_file s.prefix) (seq-in s.prefix)
    ∙ open_stream-Only os (out_file s.prefix) s.disk (seq_file s.prefix) (seq-out s.prefix)

-- What has to hold behind a call that succeeded.
Ensures : (FileStore → Type 0) → FileStore × Result Done → Type 0
Ensures P (t, ok _) = P t
Ensures P (t, err _) = Unit

ensured : (P : FileStore → Type 0) (r : FileStore × Result Done) → Ensures P r → r.1 ≡ ok tt → P r.0
unfolding Ensures
ensured P (t, ok _) h e = h
ensured P (t, err _) h e = absurd (let x : ⊥ = cc in x)

and_then-Ensures :
    (P Q : FileStore → Type 0) (r : FileStore × Result Done)
    (next : FileStore → FileStore × Result Done)
    → Ensures P r
    → ((t : FileStore) → P t → Ensures Q (next t))
    → Ensures Q (and_then r next)
unfolding Ensures
and_then-Ensures P Q (t, ok _) next h k = k t h
and_then-Ensures P Q (t, err _) next h k = tt

abbrev At1 : FileStore → Type 0
At1 t = (t.sender_seq ≡ 1) × (t.target_seq ≡ 1)

truncated-At1 : (s : FileStore) (r : Disk × Bool) → At1 s → Ensures At1 (truncated s r)
unfolding Ensures
truncated-At1 s (d, true) h = h
truncated-At1 s (d, false) h = tt

one-IsSeq : (n : ℕ) → n ≡ 1 → IsSeq n
one-IsSeq n e = ground (arith, e)

saved_at-1 :
    (s : FileStore) (r : FileStore × Result Done)
    → At1 s
    → (r.0.sender_seq ≡ s.sender_seq) × (r.0.target_seq ≡ s.target_seq)
    → Persisted s r
    → Ensures IsDurable r
unfolding Ensures
saved_at-1 s (t, err _) h same p = tt
saved_at-1 s (t, ok _) h same (inr (f, _)) = absurd f
saved_at-1 s (t, ok _) h same (inl (_, full)) =
    saved-text t (one-IsSeq t.sender_seq (same.0 ∙ h.0)) (one-IsSeq t.target_seq (same.1 ∙ h.1))
      full

logs-IsDurable : (os : Os) (t : FileStore) → IsDurable t → IsDurable (open_logs os t)
unfolding open_logs
logs-IsDurable os t h =
    Untouched-IsDurable t (open_logs os t)
      (record {
        same_prefix = refl;
        same_sender = refl;
        same_target = refl;
        same_file = open_logs-files os t;
      })
      h

persist-At1 : (os : Os) (s : FileStore) → At1 s → Ensures IsDurable (persist os s)
unfolding persist
persist-At1 os s h = saved_at-1 s (persist os s) h (refl, refl) (persist-Persisted os s)

-- A reset that reports success has its numbers in the file.
reset-Ensures : (os : Os) (s : FileStore) → Ensures IsDurable (reset os s)
unfolding reset empty_log Ensures
reset-Ensures os s =
    let cleared = record s {
      sender_seq = 1;
      target_seq = 1;
      out_index = [];
      out_stream = shut;
      in_stream = shut;
    } in
    let opens : FileStore → FileStore × Result Done = λ v. (open_logs os v, ok tt) in
    let saves = λ (u : FileStore). and_then (persist os u) opens in
    let empties = λ (t : FileStore). and_then (empty_log os (in_file s.prefix) t) saves in
    if_both (Ensures IsDurable) s.closed (fails s)
      (and_then (empty_log os (out_file s.prefix) cleared) empties) tt
      (and_then-Ensures At1 IsDurable (empty_log os (out_file s.prefix) cleared) empties
        (truncated-At1 cleared
          (empty_if_there os (out_file s.prefix) (exists os (out_file s.prefix) s.disk))
          (refl, refl))
        λ t h.
          and_then-Ensures At1 IsDurable (empty_log os (in_file s.prefix) t) saves
            (truncated-At1 t
              (empty_if_there os (in_file s.prefix) (exists os (in_file s.prefix) t.disk)) h)
            λ u k.
              and_then-Ensures IsDurable IsDurable (persist os u) opens (persist-At1 os u k)
                λ v d. logs-IsDurable os v d)

reset-IsDurable : (os : Os) (s : FileStore) → (reset os s).1 ≡ ok tt → IsDurable (reset os s).0
reset-IsDurable os s = ensured IsDurable (reset os s) (reset-Ensures os s)

run-IsDurable :
    (os : Os) (op : Op) (s : FileStore)
    → IsFit op
    → Completes os op s
    → IsDurable s
    → IsDurable (run os op s)
unfolding run
run-IsDurable os (set_sender n) s f c h = set_sender-IsDurable s h os n f
run-IsDurable os (set_target n) s f c h = set_target-IsDurable s h os n f
run-IsDurable os (advance n) s f c h = advance-IsDurable s h os n f
run-IsDurable os incr_sender s f c h = incr_sender-IsDurable s h os
run-IsDurable os incr_target s f c h = incr_target-IsDurable s h os
run-IsDurable os claim s f c h = claim-IsDurable s h os
run-IsDurable os (keep_outbound n raw) s f c h =
    Untouched-IsDurable s (store_outbound os n raw s).0 (store_outbound-Untouched os s n raw) h
run-IsDurable os (keep_inbound n raw) s f c h =
    Untouched-IsDurable s (store_inbound os n raw s).0 (store_inbound-Untouched os s n raw) h
run-IsDurable os restores s f c h = reset-IsDurable os s c
run-IsDurable os refreshes s f c h =
    Untouched-IsDurable s (refresh os s).0 (refresh-Untouched os s h) h

unfoldable pub run_all : Os → List Op → FileStore → FileStore
run_all os [] s = s
run_all os (op ∷ ops) s = run_all os ops (run os op s)

-- Each reset among the operations reports success.
unfoldable pub AllComplete : Os → List Op → FileStore → Type 0
AllComplete os [] s = Unit
AllComplete os (op ∷ ops) s = Completes os op s × AllComplete os ops (run os op s)

-- Whichever system calls fail, and after any operations on the numbers and the frames of a store,
-- resets and refreshes included, that set no number to 0 or past 64 bits and of which each reset
-- reports success, the sequence file stands for the very numbers that the store has, both at least 1:
-- a start reads what the store would have gone on with. Every other operation may fail.
pub run_all-IsDurable :
    (os : Os) (ops : List Op) (s : FileStore)
    → All IsFit ops
    → AllComplete os ops s
    → IsDurable s
    → IsDurable (run_all os ops s)
unfolding run_all AllComplete
run_all-IsDurable os [] s f c h = h
run_all-IsDurable os (op ∷ ops) s f c h =
    run_all-IsDurable os ops (run os op s) f.1 c.1 (run-IsDurable os op s f.0 c.0 h)
