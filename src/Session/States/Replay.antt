-- ===== src/Session/States/Replay.antt =====
-- src/session/session.cpp: a replay leaves the state machine where it is.
use fix_protocol.Prelude.{
  ℕ, ◌+◌, ◌≡◌, refl, true, Option, none, some, List, [], ◌∷◌, Bytes, codes, arith, ℤ, to_uint64,
}
use fix_protocol.Core.Types.{Result, ok, err}
use fix_protocol.Core.RejectReason.{required_tag_missing, value_incorrect}
use fix_protocol.Core.Tags
use fix_protocol.Core.Message.{Message, get_int, msg_type, seq_num}
use fix_protocol.Serializer.{Builder, try_serialize}
use fix_protocol.Store.{Contract}
use fix_protocol.Store.SortedMap.{Entry}
use fix_protocol.Session.{Session, Env, Effect, emit, report, guarded}
use fix_protocol.Session.Sending.{envelope, emit_wire_locked}
use fix_protocol.Session.Resend.{
  gap_fill, Replay, filled, flush_gap, stored_message, retag, count_corrupt, resent, resend_app,
  replay_frame, replay_frames, range_end, replay_snapshot, bad_request, end_or_zero, resend_from,
  resend_with, handle_resend_request,
}
use fix_protocol.Session.States.{guarded-state, audit_frame-state, send_reject-state}

module _ {S : Type 0} (env : Env S) where
  emit_wire_locked-state : (w : Bytes) (s : Session S) → (emit_wire_locked env w s).state ≡ s.state
  unfolding emit_wire_locked
  emit_wire_locked-state w s = audit_frame-state env true w (emit (Effect.sent w) s)

  filled-state :
      (n : ℕ) (x : Builder × Result Bytes) (c : ℕ) (s : Session S)
      → (filled env n x (c, s)).1.state ≡ s.state
  unfolding report
  filled-state n (b, ok w) c s = emit_wire_locked-state w (record s { builder = b })
  filled-state n (b, err _) c s = refl

  flush_gap-state : (n : ℕ) (r : Replay S) → (flush_gap env n r).1.state ≡ r.1.state
  unfolding flush_gap
  flush_gap-state n (c, s) =
      ground (arith, filled-state n (try_serialize (gap_fill n) (envelope env c s) s.builder) c s)

  resent-state :
      (n : ℕ) (x : Builder × Result Bytes) (c : ℕ) (s : Session S)
      → (resent env n x (c, s)).1.state ≡ s.state
  resent-state n (b, ok w) c s = emit_wire_locked-state w (record s { builder = b })
  resent-state n (b, err _) c s =
      flush_gap-state (n + 1) (c, count_corrupt (record s { builder = b }))

  resend_app-state :
      (n : ℕ) (m : Message) (r : Replay S) → (resend_app env n m r).1.state ≡ r.1.state
  resend_app-state n m (c, s) =
      resent-state n (try_serialize (retag m) (envelope env n s) s.builder) c s

  replay_frame-state :
      (n : ℕ) (o : Option Message) (r : Replay S) → (replay_frame env n o r).1.state ≡ r.1.state
  unfolding replay_frame
  replay_frame-state n none (c, s) = refl
  replay_frame-state n (some m) r =
      ground (arith, resend_app-state n m (flush_gap env n r), flush_gap-state n r)

  replay_frames-state :
      (last : ℕ) (fs : List Entry) (r : Replay S)
      → (replay_frames env last fs r).1.state ≡ r.1.state
  unfolding replay_frames
  replay_frames-state last [] r = refl
  replay_frames-state last (f ∷ fs) r =
      let played = replay_frame env f.seq (stored_message f.value) r in
      ground (
        arith,
        replay_frames-state last fs r,
        replay_frames-state last fs played,
        replay_frame-state f.seq (stored_message f.value) r,
      )

  replay_snapshot-state :
      (first last : ℕ) (x : Result (List Entry)) (s : Session S)
      → (replay_snapshot env first last x s).state ≡ s.state
  unfolding report
  replay_snapshot-state first last (err _) s = refl
  replay_snapshot-state first last (ok fs) s = ground (
    arith,
    flush_gap-state (last + 1) (replay_frames env last fs (first, s)),
    replay_frames-state last fs (first, s),
  )

  module _ (lawful : Contract env.stores) where
    bad_request-state :
        (m : Message) (why : Bytes) (s : Session S) → (bad_request env m why s).state ≡ s.state
    bad_request-state m why s =
        send_reject-state env lawful (seq_num m) value_incorrect (msg_type m) Tags.begin_seq_no why
          s

    resend_from-state :
        (m : Message) (first last : ℕ) (s : Session S)
        → (resend_from env m first last s).state ≡ s.state
    resend_from-state m first last s =
        let t = guarded env (Effect.resend_request first last) s in
        let next = env.stores.next_sender_seq_num t.store in
        ground (
          arith,
          guarded-state env (Effect.resend_request first last) s,
          bad_request-state m (codes "BeginSeqNo > NextSenderMsgSeqNum") t,
          replay_snapshot-state first (range_end last next)
              (env.stores.get_messages first last t.store) t,
        )

    resend_with-state :
        (m : Message) (o : Option ℤ) (s : Session S) → (resend_with env m o s).state ≡ s.state
    resend_with-state m none s =
        send_reject-state env lawful (seq_num m) required_tag_missing (msg_type m) Tags.begin_seq_no
          (codes "missing BeginSeqNo") s
    resend_with-state m (some z) s = ground (
      arith,
      bad_request-state m (codes "BeginSeqNo must be >= 1") s,
      resend_from-state m (to_uint64 z) (end_or_zero (get_int m Tags.end_seq_no)) s,
    )

    pub handle_resend_request-state :
        (m : Message) (s : Session S) → (handle_resend_request env m s).state ≡ s.state
    unfolding handle_resend_request
    handle_resend_request-state m s = resend_with-state m (get_int m Tags.begin_seq_no) s
