-- ===== src/Session/States/Machine.antt =====
-- src/session/session.cpp: every inbound message moves the state machine by one of its moves.
use fix_protocol.Prelude.{
  ◌≡◌, ◌⊎◌, inl, inr, Bool, true, false, Option, none, some, [], Bytes, codes, arith, ◌+◌, sym, ◌∙◌,
  subst,
}
use fix_protocol.Core.RejectReason.{required_tag_missing, tag_appears_more_than_once, other}
use fix_protocol.Core.Tags
use fix_protocol.Core.Message.{Message, get_int, msg_type, seq_num}
use fix_protocol.Store.{Contract, wrap_seq}
use fix_protocol.Session.{Session, Env, Effect, SessionState, disconnected, clear_gap}
use fix_protocol.Session.Sending.{send_reject, send_business_reject}
use fix_protocol.Session.Sequence.{validate_seq_num, handle_sequence_reset}
use fix_protocol.Session.Admin.{handle_logon}
use fix_protocol.Session.Inbound.{
  process_admin, violation, deliver_or_reject, process_app, advance_untyped, consume_untyped, heard,
  process_untyped, counted_if, dispatch, validated_then, process_typed, process_message,
}
use fix_protocol.Session.States.{
  Moves, stays, drops, same, guarded-state, audit_frame-state, checked-state, send_message-state,
  send_reject-state, Refuses, handle_logout-Moves, handle_heartbeat-state,
  handle_test_request-state, handle_reject-Moves,
}
use fix_protocol.Session.States.Logon.{logon_with-Moves}
use fix_protocol.Session.States.Numbers.{
  consume_inbound-state, validate_seq_num-Moves, handle_sequence_reset-Moves,
}
use fix_protocol.Session.States.Replay.{handle_resend_request-state}

module _ {S : Type 0} (env : Env S) (lawful : Contract env.stores) where
  handle_logon-Moves : (m : Message) (s : Session S) → Moves s.state (handle_logon env m s).state
  unfolding handle_logon
  handle_logon-Moves m s = logon_with-Moves env lawful m (get_int m Tags.heart_bt_int) s

  process_admin-Moves : (m : Message) (s : Session S) → Moves s.state (process_admin env m s).state
  unfolding process_admin
  process_admin-Moves m s = ground (
    arith,
    handle_logon-Moves m s,
    handle_logout-Moves env lawful m s,
    same (handle_heartbeat-state env lawful m s),
    same (handle_test_request-state env lawful m s),
    same (handle_resend_request-state env lawful m s),
    handle_sequence_reset-Moves env lawful m s,
    handle_reject-Moves env lawful m s,
    stays s.state,
  )

  deliver_or_reject-state :
      (m : Message) (o : Option Bytes) (s : Session S)
      → (deliver_or_reject env m o s).state ≡ s.state
  unfolding send_business_reject
  deliver_or_reject-state m none s = guarded-state env (Effect.delivered m) s
  deliver_or_reject-state m (some why) s = send_message-state env lawful _ s

  process_app-state : (m : Message) (s : Session S) → (process_app env m s).state ≡ s.state
  unfolding process_app
  process_app-state m s = ground (
    arith,
    send_reject-state env lawful (seq_num m) other (msg_type m) 0 (codes "Session not active") s,
    deliver_or_reject-state m (violation s.cfg.validate_fields env.dictionary m) s,
  )

  Moves-after : {a b c : SessionState} → Moves a b → c ≡ b → Moves a c
  Moves-after {a} h e = subst (Moves a) (sym e) h

  dispatch-Moves :
      (m : Message) (v : Bool) (s : Session S) → Moves s.state (dispatch env m v s).state
  unfolding dispatch
  dispatch-Moves m v s =
      let t =
        send_reject env (seq_num m) tag_appears_more_than_once (msg_type m) 0
          (codes "Tag appears more than once") s in
      ground (
        arith,
        same (
            consume_inbound-state env lawful m v t
            ∙ send_reject-state env lawful (seq_num m) tag_appears_more_than_once (msg_type m) 0
                (codes "Tag appears more than once") s),
        Moves-after (process_admin-Moves m s)
            (consume_inbound-state env lawful m v (process_admin env m s)),
        same (consume_inbound-state env lawful m v (process_app env m s) ∙ process_app-state m s),
      )

  validated_then-Moves :
      (m : Message) (a : SessionState) (r : Session S × Bool)
      → (r.0.state ≡ a) ⊎ (r.0.state ≡ disconnected) × (r.1 ≡ false)
      → Moves a (validated_then env m r).state
  unfolding clear_gap
  validated_then-Moves m a (s, true) (inl e) =
      subst (λ b. Moves b (dispatch env m true (clear_gap s)).state) e
        (dispatch-Moves m true (clear_gap s))
  validated_then-Moves m a (s, true) (inr (_, f)) = absurd (let x : ⊥ = cc in x)
  validated_then-Moves m a (s, false) (inl e) = same e
  validated_then-Moves m a (s, false) (inr (e, _)) = Moves-after (drops a) e

  counted_if-Moves :
      (a : SessionState) (r : Session S × Bool) → Moves a r.0.state → Moves a (counted_if r).state
  counted_if-Moves a (s, true) h = h
  counted_if-Moves a (s, false) h = h

  process_typed-Moves : (m : Message) (s : Session S) → Moves s.state (process_typed env m s).state
  unfolding process_typed
  process_typed-Moves m s = ground (
    arith,
    counted_if-Moves s.state (handle_sequence_reset env m s)
        (handle_sequence_reset-Moves env lawful m s),
    validated_then-Moves m s.state (validate_seq_num env m s)
        (validate_seq_num-Moves env lawful m s),
    dispatch-Moves m false s,
  )

  consume_untyped-state : (m : Message) (s : Session S) → (consume_untyped env m s).state ≡ s.state
  unfolding consume_untyped
  consume_untyped-state m s = ground (
    arith,
    checked-state (codes "reject: inbound audit persist failed")
        (env.stores.store_inbound (seq_num m) m.raw (advance_untyped env m s).store)
        (advance_untyped env m s),
    checked-state (codes "reject: NextTargetMsgSeqNum advance failed")
        (env.stores.advance_next_target_seq_num (wrap_seq (seq_num m + 1)) s.store) s,
  )

  process_untyped-state : (m : Message) (s : Session S) → (process_untyped env m s).state ≡ s.state
  unfolding process_untyped
  process_untyped-state m s =
      send_reject-state env lawful (seq_num m) required_tag_missing [] Tags.msg_type
        (codes "Missing MsgType") (consume_untyped env m s)
      ∙ consume_untyped-state m s

  Moves-from : {a b c : SessionState} → a ≡ b → Moves a c → Moves b c
  Moves-from {c = c} e h = subst (λ a. Moves a c) e h

  -- On any store that keeps the contract, an inbound message moves the state machine in one of
  -- these ways only: not at all, to Disconnected, from WaitingLogon to Active, or from LogonSent to
  -- Active. So no message makes a session active but in answer to a handshake that is under way.
  pub process_message-Moves :
      (m : Message) (s : Session S) → Moves s.state (process_message env m s).state
  unfolding process_message
  process_message-Moves m s =
      let t = heard env m s in
      let from : t.state ≡ s.state = audit_frame-state env false m.raw s in
      ground (
        arith,
        Refuses env lawful (codes "BeginString does not match session") t s.state,
        Refuses env lawful (codes "CompID mismatch") t s.state,
        same (process_untyped-state m t ∙ from),
        Moves-from from (process_typed-Moves m t),
      )
