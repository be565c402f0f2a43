-- ===== src/Session/States/Numbers.antt =====
-- src/session/session.cpp: how the checks of the sequence numbers move the state machine.
use fix_protocol.Prelude.{
  ℕ, ◌+◌, ◌≡◌, ◌⊎◌, Bool, true, false, Option, none, some, [], codes, arith, ℤ, to_uint64,
}
use fix_protocol.Core.RejectReason.{required_tag_missing}
use fix_protocol.Core.Tags
use fix_protocol.Core.Message.{Message, get_int, msg_type, seq_num}
use fix_protocol.Store.{Contract, wrap_seq}
use fix_protocol.Session.{Session, Env, Effect, disconnected, guarded, clear_gap}
use fix_protocol.Session.Sending.{send_resend_request, resend_request_message}
use fix_protocol.Session.Sequence.{
  set_target, advance_target, consume_inbound, request_gap, validate_seq_num, fill_to, reset_to,
  handle_sequence_reset,
}
use fix_protocol.Session.States.{
  Moves, stays, send_message-state, refuse-state, Refuses, send_reject-state, same, guarded-state,
  checked-state,
}

module _ {S : Type 0} (env : Env S) (lawful : Contract env.stores) where
  pub consume_inbound-state :
      (msg : Message) (b : Bool) (s : Session S) → (consume_inbound env msg b s).state ≡ s.state
  unfolding consume_inbound
  consume_inbound-state msg b s = ground (
    arith,
    checked-state (codes "consume: inbound audit persist failed")
        (env.stores.store_inbound (seq_num msg) msg.raw (advance_target env msg s).store)
        (advance_target env msg s),
    checked-state (codes "consume: NextTargetMsgSeqNum advance failed")
        (env.stores.advance_next_target_seq_num (wrap_seq (seq_num msg + 1)) s.store) s,
  )

  request_gap-state : (n : ℕ) (s : Session S) → (request_gap env n s).state ≡ s.state
  unfolding request_gap send_resend_request
  request_gap-state n s = ground (
    arith,
    send_message-state env lawful (resend_request_message n 0)
        (record s { gap_rr_attempts = 1; gap_rr_last = env.now; gap_open = true }),
  )

  pub validate_seq_num-Moves :
      (msg : Message) (s : Session S)
      → let r = validate_seq_num env msg s in
        (r.0.state ≡ s.state) ⊎ (r.0.state ≡ disconnected) × (r.1 ≡ false)
  unfolding validate_seq_num
  validate_seq_num-Moves msg s =
      let expected = env.stores.next_target_seq_num s.store in
      let t = guarded env (Effect.sequence_gap expected (seq_num msg)) s in
      ground (
        arith,
        send_reject-state env lawful 0 required_tag_missing (msg_type msg) Tags.msg_seq_num [] s,
        request_gap-state expected t,
        guarded-state env (Effect.sequence_gap expected (seq_num msg)) s,
        refuse-state env lawful (codes "MsgSeqNum too low") s,
      )

  set_target-state : (n : ℕ) (s : Session S) → (clear_gap (set_target env n s)).state ≡ s.state
  unfolding clear_gap set_target
  set_target-state n s =
      checked-state (codes "sequence reset: NewSeqNo persist failed")
        (env.stores.set_next_target_seq_num n s.store) s

  fill_to-Moves : (n : ℕ) (o : Option ℤ) (s : Session S) → Moves s.state (fill_to env n o s).state
  fill_to-Moves n none s = Refuses env lawful (codes "invalid NewSeqNo") s s.state
  fill_to-Moves n (some z) s = ground (
    arith,
    Refuses env lawful (codes "invalid NewSeqNo") s s.state,
    same (set_target-state (to_uint64 z) s),
  )

  reset_to-Moves : (o : Option ℤ) (s : Session S) → Moves s.state (reset_to env o s).state
  reset_to-Moves none s = Refuses env lawful (codes "invalid NewSeqNo") s s.state
  reset_to-Moves (some z) s = ground (
    arith,
    Refuses env lawful (codes "invalid NewSeqNo") s s.state,
    same (set_target-state (to_uint64 z) s),
  )

  pub handle_sequence_reset-Moves :
      (msg : Message) (s : Session S) → Moves s.state (handle_sequence_reset env msg s).0.state
  unfolding handle_sequence_reset
  handle_sequence_reset-Moves msg s =
      let expected = env.stores.next_target_seq_num s.store in
      ground (
        arith,
        Refuses env lawful (codes "SequenceReset GapFill requires PossDupFlag") s s.state,
        same (request_gap-state expected s),
        stays s.state,
        fill_to-Moves expected (get_int msg Tags.new_seq_no) s,
        reset_to-Moves (get_int msg Tags.new_seq_no) s,
      )
