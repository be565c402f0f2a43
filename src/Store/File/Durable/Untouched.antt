-- ===== src/Store/File/Durable/Untouched.antt =====
-- src/store/file_store.cpp: what leaves the numbers and the sequence file alone.
use fix_protocol.Prelude.{
  ℕ, suc, ◌≡◌, refl, Bool, true, false, not, ◌||◌, [], ◌∷◌, Bytes, arith, if◌then◌else◌, if_each,
  if_both, equal, length, sym, ap, ◌∙◌, subst,
}
use fix_protocol.Core.Types.{Result, ok, Done}
use fix_protocol.Store.File.Disk.{Os, sync, write_all}
use fix_protocol.Store.File.Disk.Written.{write_all-Only}
use fix_protocol.Store.File.Sequences.Crash.{numbers_in}
use fix_protocol.Store.File.Log.{record_text}
use fix_protocol.Store.File.State.{FileStore, seq_file, out_file, in_file, fails}
use fix_protocol.Store.File.Frames.{
  fsync_path, maybe_fsync, append, appended, indexed, done_or_fails, store_outbound, store_inbound,
}
use fix_protocol.Store.File.Mirror.{fsync_opened-files}
use fix_protocol.Store.File.Durable.{IsSeq, IsDurable}

-- The numbers and the sequence file are as they were.
pub record Untouched (s t : FileStore) : Type 0 where
  pub same_prefix : t.prefix ≡ s.prefix
  pub same_sender : t.sender_seq ≡ s.sender_seq
  pub same_target : t.target_seq ≡ s.target_seq
  pub same_file : t.disk.files (seq_file s.prefix) ≡ s.disk.files (seq_file s.prefix)

pub Untouched-IsDurable : (s t : FileStore) → Untouched s t → IsDurable s → IsDurable t
Untouched-IsDurable s t u h = record {
  same =
      ap (λ p. numbers_in (t.disk.files (seq_file p))) u.same_prefix
      ∙ ap numbers_in u.same_file
      ∙ h.same
      ∙ ap (λ n. ok (n, s.target_seq)) (sym u.same_sender)
      ∙ ap (λ n. ok (t.sender_seq, n)) (sym u.same_target);
  sender = subst IsSeq (sym u.same_sender) h.sender;
  target = subst IsSeq (sym u.same_target) h.target;
}

pub seq-out : (prefix : Bytes) → equal (seq_file prefix) (out_file prefix) ≡ false
unfolding equal
seq-out [] = refl
seq-out (c ∷ prefix) = ground (arith, seq-out prefix)

pub seq-in : (prefix : Bytes) → equal (seq_file prefix) (in_file prefix) ≡ false
unfolding equal
seq-in [] = refl
seq-in (c ∷ prefix) = ground (arith, seq-in prefix)

module _ (os : Os) (s : FileStore) where
  maybe_fsync-Untouched : (t : FileStore) → Untouched s t → Untouched s (maybe_fsync os t).0
  unfolding maybe_fsync fsync_path sync
  maybe_fsync-Untouched t u =
      let r = fsync_path os t.disk in
      if_each (λ (x : FileStore × Bool). Untouched s x.0) t.fsync_messages
        (record t { disk = r.0 }, r.1) (t, true)
        (λ _. record {
          same_prefix = u.same_prefix;
          same_sender = u.same_sender;
          same_target = u.same_target;
          same_file =
              ap (λ f. f (seq_file s.prefix)) (fsync_opened-files os (sync os t.disk))
              ∙ u.same_file;
        })
        (λ _. u)

  indexed-Untouched :
      (n pos : ℕ) (r : FileStore × Bool) → Untouched s r.0 → Untouched s (indexed n pos r).0
  indexed-Untouched n pos (t, true) u = record {
    same_prefix = u.same_prefix;
    same_sender = u.same_sender;
    same_target = u.same_target;
    same_file = u.same_file;
  }
  indexed-Untouched n pos (t, false) u = u

  done_or_fails-Untouched :
      (r : FileStore × Bool) → Untouched s r.0 → Untouched s (done_or_fails r).0
  done_or_fails-Untouched (t, true) u = u
  done_or_fails-Untouched (t, false) u = u

  pub itself : Untouched s s
  itself = record { same_prefix = refl; same_sender = refl; same_target = refl; same_file = refl }

  pub store_outbound-Untouched : (n : ℕ) (raw : Bytes) → Untouched s (store_outbound os n raw s).0
  unfolding store_outbound append
  store_outbound-Untouched n raw =
      let name = out_file s.prefix in
      let text = record_text n raw in
      let w = write_all os name (suc (length text)) text s.disk in
      let st = appended name s.out_stream w in
      let t = record s { disk = w.0; out_stream = st } in
      let kept = indexed n s.out_stream.place (maybe_fsync os t) in
      let P = λ (r : FileStore × Result Done). Untouched s r.0 in
      let u : Untouched s t = record {
        same_prefix = refl;
        same_sender = refl;
        same_target = refl;
        same_file =
            write_all-Only name os (suc (length text)) text s.disk (seq_file s.prefix)
              (seq-out s.prefix);
      } in
      if_both P (s.closed || not s.out_stream.is_open || not s.out_stream.good) (fails s)
        (if not st.good then fails t else kept) itself
        (if_both P (not st.good) (fails t) kept u
          (indexed-Untouched n s.out_stream.place (maybe_fsync os t) (maybe_fsync-Untouched t u)))

  pub store_inbound-Untouched : (n : ℕ) (raw : Bytes) → Untouched s (store_inbound os n raw s).0
  unfolding store_inbound append
  store_inbound-Untouched n raw =
      let name = in_file s.prefix in
      let text = record_text n raw in
      let w = write_all os name (suc (length text)) text s.disk in
      let st = appended name s.in_stream w in
      let t = record s { disk = w.0; in_stream = st } in
      let kept = done_or_fails (maybe_fsync os t) in
      let P = λ (r : FileStore × Result Done). Untouched s r.0 in
      let u : Untouched s t = record {
        same_prefix = refl;
        same_sender = refl;
        same_target = refl;
        same_file =
            write_all-Only name os (suc (length text)) text s.disk (seq_file s.prefix)
              (seq-in s.prefix);
      } in
      if_both P (s.closed || not s.in_stream.is_open || not s.in_stream.good) (fails s)
        (if not st.good then fails t else kept) itself
        (if_both P (not st.good) (fails t) kept u
          (done_or_fails-Untouched (maybe_fsync os t) (maybe_fsync-Untouched t u)))
