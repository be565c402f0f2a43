-- ===== src/Session/States.antt =====
-- src/session/session.cpp: how an inbound message and the timer move the state machine.
pub mod Logon
pub mod Numbers
pub mod Replay
pub mod Machine
use fix_protocol.Prelude.{
  ℕ, ◌+◌, ◌≡◌, ◌≢◌, refl, ◌⊎◌, inl, inr, Bool, true, false, not, ◌&&◌, ◌||◌, Option, none, some,
  List, [], ◌∷◌, ◌++◌, Bytes, codes, arith, if◌then◌else◌, ℤ, sym, ap, if_each, if_both, ◌∙◌, subst,
  Bool-cases, is_nonpositive, to_uint64, equal,
}
use fix_protocol.Core.Types.{Result, ok, err, Done}
use fix_protocol.Core.RejectReason.{SessionRejectReason, required_tag_missing}
use fix_protocol.Core.Tags
use fix_protocol.Core.Message.{Message, get, get_int, has, msg_type, seq_num, value_or}
use fix_protocol.Store.{Contract, wrap_seq}
use fix_protocol.Session.{
  Session, Env, Effect, SessionState, not_connected, waiting_logon, logon_sent, active, logout_sent,
  disconnected, same_state, emit, report, report_thrown, guarded, audit_frame, clear_gap,
  transition, disconnect, notify_logout,
}
use fix_protocol.Session.Sending.{
  send_message_locked, send_message, send_logout, send_logout_echo, send_heartbeat,
  send_test_request, send_resend_request, send_reject, reject_message, resend_request_message,
  send_business_reject, send_logon, send_logon_as, logon_message, logon_result, logon_reset,
}
use fix_protocol.Session.Sending.Rollback.{Sends, send_message_locked-Sends}
use fix_protocol.Session.Sequence.{
  checked, set_target, advance_target, consume_inbound, request_gap, validate_seq_num, refuse,
  fill_to, reset_to, handle_sequence_reset,
}
use fix_protocol.Session.Admin.{
  became_active, answered, baseline, adopt, wants_baseline, accept_logon, logon_with,
  logon_in_state, handle_logon, handle_logout, handle_heartbeat, handle_test_request, handle_reject,
  rejected_seq, reject_info,
}
use fix_protocol.Session.Resend.{handle_resend_request}
use fix_protocol.Session.Inbound.{
  process_admin, process_app, process_untyped, process_typed, dispatch, process_message,
}

-- One move of the state machine: none, the end of the connection, or the end of a handshake.
pub data Moves : SessionState → SessionState → Type 0 where
  stays : (a : SessionState) → Moves a a
  drops : (a : SessionState) → Moves a disconnected
  answers : Moves waiting_logon active
  confirms : Moves logon_sent active

pub same : {a b : SessionState} → b ≡ a → Moves a b
same {a} e = subst (Moves a) (sym e) (stays a)

pub dropped : {a b : SessionState} → b ≡ disconnected → Moves a b
dropped {a} e = subst (Moves a) (sym e) (drops a)

report_thrown-state :
    {S : Type 0} (name : Bytes) (o : Option Bytes) (s : Session S)
    → (report_thrown name o s).state ≡ s.state
unfolding report
report_thrown-state name none s = refl
report_thrown-state name (some w) s = refl

pub guarded-state :
    {S : Type 0} (env : Env S) (e : Effect) (s : Session S) → (guarded env e s).state ≡ s.state
unfolding guarded
guarded-state env e s = report_thrown-state [] (env.throws e) (emit e s)

pub audit_frame-state :
    {S : Type 0} (env : Env S) (b : Bool) (w : Bytes) (s : Session S)
    → (audit_frame env b w s).state ≡ s.state
unfolding audit_frame
audit_frame-state env b w s = ground (
  arith,
  report_thrown-state (codes "audit log: entry dropped: ") (env.throws (Effect.audited b w))
      (emit (Effect.audited b w) s),
)

notify_logout-state :
    {S : Type 0} (env : Env S) (r : Bytes) (s : Session S) → (notify_logout env r s).state ≡ s.state
unfolding notify_logout
notify_logout-state env r s =
    ground (arith, guarded-state env (Effect.logout r) (record s { logout_notified = true }))

pub checked-state :
    {S : Type 0} (what : Bytes) (r : S × Result Done) (s : Session S)
    → (checked what r s).state ≡ s.state
unfolding report
checked-state what (st, ok _) s = refl
checked-state what (st, err _) s = refl

module _ {S : Type 0} (env : Env S) (lawful : Contract env.stores) where
  Sends-state :
      (m : Message) (s : Session S) (r : Session S × Result Done)
      → Sends env lawful m s r
      → r.0.state ≡ s.state
  Sends-state m s (t, ok _) h = h.1.1
  Sends-state m s (t, err _) h = h.1.1

  pub send_message_locked-state :
      (m : Message) (s : Session S) → (send_message_locked env m s).0.state ≡ s.state
  send_message_locked-state m s = Sends-state m s _ (send_message_locked-Sends env lawful m s)

  pub send_message-state : (m : Message) (s : Session S) → (send_message env m s).state ≡ s.state
  unfolding send_message
  send_message-state m s = send_message_locked-state m s

  pub refuse-state : (why : Bytes) (s : Session S) → (refuse env why s).state ≡ disconnected
  unfolding disconnect
  refuse-state why s = refl

  pub Refuses : (why : Bytes) (s : Session S) (a : SessionState) → Moves a (refuse env why s).state
  Refuses why s a = dropped (refuse-state why s)

  pub send_reject-state :
      (n : ℕ) (r : SessionRejectReason) (mt : Bytes) (tag : ℕ) (why : Bytes) (s : Session S)
      → (send_reject env n r mt tag why s).state ≡ s.state
  unfolding send_reject
  send_reject-state n r mt tag why s = send_message-state (reject_message n r mt tag why) s

  pub handle_logout-Moves :
      (msg : Message) (s : Session S) → Moves s.state (handle_logout env msg s).state
  unfolding handle_logout disconnect
  handle_logout-Moves msg s = ground (
    arith,
    drops s.state,
    notify_logout-state env (value_or (get msg Tags.text) [])
        (disconnect (transition logout_sent disconnected s).0),
    notify_logout-state env (value_or (get msg Tags.text) []) (disconnect (send_logout_echo env s)),
  )

  pub handle_heartbeat-state :
      (msg : Message) (s : Session S) → (handle_heartbeat env msg s).state ≡ s.state
  unfolding handle_heartbeat
  handle_heartbeat-state msg s = ground arith

  pub handle_test_request-state :
      (msg : Message) (s : Session S) → (handle_test_request env msg s).state ≡ s.state
  unfolding handle_test_request send_heartbeat
  handle_test_request-state msg s = send_message-state _ s

  pub handle_reject-Moves :
      (msg : Message) (s : Session S) → Moves s.state (handle_reject env msg s).state
  unfolding handle_reject disconnect
  handle_reject-Moves msg s = ground (
    arith,
    drops s.state,
    same (guarded-state env (Effect.peer_reject (rejected_seq msg) (reject_info msg)) s),
  )
