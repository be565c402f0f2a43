-- ===== src/Session/Sending.antt =====
-- src/session/session.cpp: sending. A message takes a sequence number, and gives it back when it
-- does not go out.
pub mod Wire
pub mod Rollback
use fix_protocol.Prelude.{
  ℕ, ◌+◌, Bool, true, false, not, ◌&&◌, ◌||◌, List, [], ◌∷◌, ◌++◌, Bytes, codes, equal,
  if◌then◌else◌, ℤ, pos, to_int64, ◌==◌,
}
use fix_protocol.Prelude.Decimal.{to_decimal}
use fix_protocol.Core.Types.{ErrorCode, session_error, Result, ok, err, Done, version_text}
use fix_protocol.Core.RejectReason.{SessionRejectReason, reason_code}
use fix_protocol.Core.Tags
use fix_protocol.Core.MsgTypes
use fix_protocol.Core.Message.{Message, set, set_int, message}
use fix_protocol.Serializer.{Builder, Envelope, try_serialize}
use fix_protocol.Session.{
  Session, Env, SessionState, not_connected, waiting_logon, logon_sent, disconnected, logout_sent,
  same_state, sent, emit, report, audit_frame, clear_gap, transition, wrap_count,
}

abbrev nonempty : Bytes → Bool
nonempty s = not (equal s [])

-- `m.set`, with its result dropped.
abbrev with_text : ℕ → Bytes → Message → Message
with_text tag v m = (set m tag v).0

abbrev with_int : ℕ → ℤ → Message → Message
with_int tag v m = (set_int m tag v).0

abbrev with_optional : ℕ → Bytes → Message → Message
with_optional tag v m = if nonempty v then with_text tag v m else m

abbrev pub envelope : {S : Type 0} → Env S → ℕ → Session S → Envelope
envelope env seq s = record {
  version = version_text s.cfg.id.version;
  seq_num = seq;
  sender = s.cfg.id.sender_comp_id;
  target = s.cfg.id.target_comp_id;
  sending_time = env.timestamp;
}

-- The frame is handed to the transport.
unfoldable pub emit_wire_locked : {S : Type 0} → Env S → Bytes → Session S → Session S
unfolding audit_frame
emit_wire_locked env wire s =
    let t = audit_frame env true wire (emit (sent wire) s) in
    record t { last_send_time = env.now; msgs_sent = wrap_count (t.msgs_sent + 1) }

abbrev after_rollback : {S : Type 0} → S × Result Done → Session S → Session S
after_rollback (st, ok _) s = record s { store = st }
after_rollback (st, err _) s =
    report (codes "send: sequence rollback failed after a send abort") (record s { store = st })

-- The lambda `abort_with`.
unfoldable pub abort_with :
    {S : Type 0} → Env S → ℕ → ErrorCode → Session S → Session S × Result Done
abort_with env seq original s =
    (after_rollback (env.stores.set_next_sender_seq_num seq s.store) s, err original)

abbrev stored :
    {S : Type 0} → Env S → ℕ → Bytes → S × Result Done → Session S → Session S × Result Done
stored env seq wire (st, ok _) s = (emit_wire_locked env wire (record s { store = st }), ok tt)
stored env seq wire (st, err e) s = abort_with env seq e (record s { store = st })

abbrev serialized :
    {S : Type 0} → Env S → ℕ → Builder × Result Bytes → Session S → Session S × Result Done
serialized env seq (b, ok wire) s =
    stored env seq wire (env.stores.store_outbound seq wire s.store) (record s { builder = b })
serialized env seq (b, err e) s = abort_with env seq e (record s { builder = b })

-- Everything behind the claim.
unfoldable pub send_claimed :
    {S : Type 0} → Env S → Message → ℕ → Session S → Session S × Result Done
send_claimed env msg seq s = serialized env seq (try_serialize msg (envelope env seq s) s.builder) s

abbrev claimed : {S : Type 0} → Env S → Message → S × Result ℕ → Session S → Session S × Result Done
claimed env msg (st, ok seq) s = send_claimed env msg seq (record s { store = st })
claimed env msg (st, err e) s = (record s { store = st }, err e)

unfoldable pub send_message_locked :
    {S : Type 0} → Env S → Message → Session S → Session S × Result Done
send_message_locked env msg s = claimed env msg (env.stores.next_sender_seq_num_incr s.store) s

-- With the result dropped, as the helpers below call it.
unfoldable pub send_message : {S : Type 0} → Env S → Message → Session S → Session S
unfolding send_message_locked
send_message env msg s = (send_message_locked env msg s).0

unfoldable pub send_logout : {S : Type 0} → Env S → Bytes → Session S → Session S
send_logout env reason s =
    let t = send_message env (with_optional Tags.text reason (message MsgTypes.logout)) s in
    record t {
      logout_sent_time = env.now;
      state = if same_state t.state disconnected then t.state else logout_sent;
    }

unfoldable pub send_logout_echo : {S : Type 0} → Env S → Session S → Session S
send_logout_echo env s = send_message env (message MsgTypes.logout) s

unfoldable pub send_heartbeat : {S : Type 0} → Env S → Bytes → Session S → Session S
send_heartbeat env test_req_id s =
    send_message env (with_optional Tags.test_req_id test_req_id (message MsgTypes.heartbeat)) s

unfoldable pub send_test_request : {S : Type 0} → Env S → Session S → Session S
send_test_request env s =
    let n = wrap_count (s.test_req_counter + 1) in
    let req_id = codes "TEST-" ++ to_decimal n in
    send_message env (with_text Tags.test_req_id req_id (message MsgTypes.test_request)) (record s {
      test_req_counter = n;
      pending_test_req_id = req_id;
      test_req_sent_time = env.now;
      test_req_pending = true;
    })

unfoldable pub resend_request_message : ℕ → ℕ → Message
resend_request_message first last =
    with_int Tags.end_seq_no (to_int64 last)
      (with_int Tags.begin_seq_no (to_int64 first) (message MsgTypes.resend_request))

unfoldable pub send_resend_request : {S : Type 0} → Env S → ℕ → ℕ → Session S → Session S
send_resend_request env first last s = send_message env (resend_request_message first last) s

unfoldable pub reject_message : ℕ → SessionRejectReason → Bytes → ℕ → Bytes → Message
reject_message ref_seq reason ref_msg_type ref_tag text =
    let m =
      with_int Tags.session_reject_reason (pos (reason_code reason))
        (with_int Tags.ref_seq_num (to_int64 ref_seq) (message MsgTypes.reject)) in
    let n = with_optional Tags.ref_msg_type ref_msg_type m in
    with_optional Tags.text text
      (if ref_tag == 0 then n else with_int Tags.ref_tag_id (pos ref_tag) n)

unfoldable pub send_reject :
    {S : Type 0} → Env S → ℕ → SessionRejectReason → Bytes → ℕ → Bytes → Session S → Session S
send_reject env ref_seq reason ref_msg_type ref_tag text s =
    send_message env (reject_message ref_seq reason ref_msg_type ref_tag text) s

unfoldable pub send_business_reject :
    {S : Type 0} → Env S → ℕ → ℕ → Bytes → Bytes → Session S → Session S
send_business_reject env ref_seq reason ref_msg_type text s =
    send_message env
      (with_optional Tags.text text (
        with_optional Tags.ref_msg_type ref_msg_type (
          with_int Tags.business_reject_reason (pos reason) (
            with_int Tags.ref_seq_num (to_int64 ref_seq)
              (message MsgTypes.business_message_reject)))))
      s

unfoldable pub logon_message : {S : Type 0} → Session S → Message
logon_message s =
    let m =
      with_int Tags.heart_bt_int s.heartbeat_sec
        (with_int Tags.encrypt_method (pos 0) (message MsgTypes.logon)) in
    let n = if s.cfg.reset_on_logon then with_text Tags.reset_seq_num_flag (codes "Y") m else m in
    with_optional Tags.default_appl_ver_id s.cfg.default_appl_ver_id
      (with_optional Tags.password s.cfg.password (with_optional Tags.username s.cfg.username n))

-- Back to the state before, if the handshake state was published.
abbrev pub unpublish : {S : Type 0} → Bool → SessionState → SessionState → Session S → Session S
unpublish published desired prev s = if published then (transition desired prev s).0 else s

abbrev pub logon_result :
    {S : Type 0}
    → Bool
    → SessionState
    → SessionState
    → Session S × Result Done
    → Session S × Result Done
logon_result published desired prev (s, ok _) = (s, ok tt)
logon_result published desired prev (s, err e) = (unpublish published desired prev s, err e)

abbrev pub logon_reset :
    {S : Type 0}
    → Env S
    → Message
    → Bool
    → SessionState
    → SessionState
    → S × Result Done
    → Session S
    → Session S × Result Done
logon_reset env m published desired prev (st, ok _) s =
    logon_result published desired prev
      (send_message_locked env m (clear_gap (record s { store = st })))
logon_reset env m published desired prev (st, err e) s = (
  unpublish published desired prev
      (report (codes "logon: store reset failed; Logon not sent") (record s { store = st })),
  err e,
)

-- The handshake state is published: the store is reset where that is configured, and the Logon sent.
unfoldable pub send_logon_as :
    {S : Type 0}
    → Env S
    → Message
    → Bool
    → SessionState
    → SessionState
    → Session S
    → Session S × Result Done
send_logon_as env m published desired prev s =
    if s.cfg.reset_on_logon
    then logon_reset env m published desired prev (env.stores.reset s.store) s
    else logon_result published desired prev (send_message_locked env m s)

unfoldable pub send_logon : {S : Type 0} → Env S → Session S → Session S × Result Done
send_logon env s =
    let m = logon_message s in
    let desired = if s.cfg.initiator then logon_sent else waiting_logon in
    let t = record s { logon_sent_time = env.now } in
    if same_state s.state desired
    then (if s.cfg.initiator
        then (s, err session_error)
        else send_logon_as env m false desired s.state t)
    else if same_state s.state not_connected || same_state s.state disconnected
    then send_logon_as env m true desired s.state (transition s.state desired t).0
    else (s, err session_error)
