-- ===== src/Session/Inbound.antt =====
-- src/session/session.cpp: what a session does with an inbound message, and its public operations.
use fix_protocol.Prelude.{
  ◌+◌, Bool, true, false, not, ◌&&◌, ◌||◌, Option, none, some, [], Bytes, codes, equal,
  if◌then◌else◌, ◌==◌,
}
use fix_protocol.Core.Types.{Result, ok, err, Done, session_error, FixVersion, version_text}
use fix_protocol.Core.RejectReason.{required_tag_missing, tag_appears_more_than_once, other}
use fix_protocol.Core.Tags
use fix_protocol.Core.MsgTypes
use fix_protocol.Core.Message.{Message, get, has, begin_string_version, seq_num, poss_dup, msg_type}
use fix_protocol.Parser.Stream as Stream
use fix_protocol.Store.{wrap_seq}
use fix_protocol.Session.{
  Session, Env, Dictionary, SessionState, not_connected, waiting_logon, logon_sent, active,
  logout_sent, disconnected, same_state, delivered, guarded, audit_frame, clear_gap, wrap_count,
}
use fix_protocol.Session.Sending.{
  send_message_locked, send_logout, send_logon, send_reject, send_business_reject,
}
use fix_protocol.Session.Sequence.{
  checked, consume_inbound, validate_seq_num, handle_sequence_reset, refuse,
}
use fix_protocol.Session.Admin.{
  handle_logon, handle_logout, handle_heartbeat, handle_test_request, handle_reject,
}
use fix_protocol.Session.Resend.{is_admin_msg, handle_resend_request}

unfoldable pub process_admin : {S : Type 0} → Env S → Message → Session S → Session S
process_admin env msg s =
    let mt = msg_type msg in
    if equal mt MsgTypes.logon
    then handle_logon env msg s
    else if equal mt MsgTypes.logout
    then handle_logout env msg s
    else if equal mt MsgTypes.heartbeat
    then handle_heartbeat env msg s
    else if equal mt MsgTypes.test_request
    then handle_test_request env msg s
    else if equal mt MsgTypes.resend_request
    then handle_resend_request env msg s
    else if equal mt MsgTypes.sequence_reset
    then (handle_sequence_reset env msg s).0
    else if equal mt MsgTypes.reject
    then handle_reject env msg s
    else s

-- The error text if the message is to be validated and does not pass.
abbrev checked_by : Dictionary → Message → Option Bytes
checked_by d msg = if d.defines (msg_type msg) then d.validate msg else none

abbrev pub violation : Bool → Option Dictionary → Message → Option Bytes
violation false d msg = none
violation true none msg = none
violation true (some d) msg = checked_by d msg

abbrev pub deliver_or_reject : {S : Type 0} → Env S → Message → Option Bytes → Session S → Session S
deliver_or_reject env msg none s = guarded env (delivered msg) s
deliver_or_reject env msg (some why) s =
    send_business_reject env (seq_num msg) 0 (msg_type msg) why s

unfoldable pub process_app : {S : Type 0} → Env S → Message → Session S → Session S
process_app env msg s =
    if not (same_state s.state active)
    then send_reject env (seq_num msg) other (msg_type msg) 0 (codes "Session not active") s
    else deliver_or_reject env msg (violation s.cfg.validate_fields env.dictionary msg) s

abbrev pub seq_validated : SessionState → Bool
seq_validated waiting_logon = false
seq_validated logon_sent = false
seq_validated not_connected = false
seq_validated _ = true

abbrev is_text : Option Bytes → Bytes → Bool
is_text none t = false
is_text (some v) t = equal v t

-- The BeginString and both CompIDs are this session's.
abbrev pub same_version : Message → FixVersion → Bool
same_version msg v = equal (version_text (begin_string_version msg)) (version_text v)

abbrev pub same_parties : {S : Type 0} → Message → Session S → Bool
same_parties msg s =
    is_text (get msg Tags.sender_comp_id) s.cfg.id.target_comp_id
    && is_text (get msg Tags.target_comp_id) s.cfg.id.sender_comp_id

abbrev pub count_received : {S : Type 0} → Session S → Session S
count_received s = record s { msgs_received = wrap_count (s.msgs_received + 1) }

abbrev pub advance_untyped : {S : Type 0} → Env S → Message → Session S → Session S
advance_untyped env msg s =
    checked (codes "reject: NextTargetMsgSeqNum advance failed")
      (env.stores.advance_next_target_seq_num (wrap_seq (seq_num msg + 1)) s.store) s

abbrev pub keep_untyped : {S : Type 0} → Env S → Message → Session S → Session S
keep_untyped env msg s =
    checked (codes "reject: inbound audit persist failed")
      (env.stores.store_inbound (seq_num msg) msg.raw s.store) s

unfoldable pub consume_untyped : {S : Type 0} → Env S → Message → Session S → Session S
consume_untyped env msg s =
    if seq_validated s.state
      && not (poss_dup msg)
      && seq_num msg == env.stores.next_target_seq_num s.store
    then keep_untyped env msg (advance_untyped env msg s)
    else s

unfoldable pub process_untyped : {S : Type 0} → Env S → Message → Session S → Session S
process_untyped env msg s = count_received (
    send_reject env (seq_num msg) required_tag_missing [] Tags.msg_type (codes "Missing MsgType")
      (consume_untyped env msg s))

abbrev pub counted_if : {S : Type 0} → Session S × Bool → Session S
counted_if (s, true) = count_received s
counted_if (s, false) = s

-- Behind the sequence validation, whose result is `validated`.
unfoldable pub dispatch : {S : Type 0} → Env S → Message → Bool → Session S → Session S
dispatch env msg validated s =
    if msg.duplicate_header
    then count_received (
        consume_inbound env msg validated (
          send_reject env (seq_num msg) tag_appears_more_than_once (msg_type msg) 0
            (codes "Tag appears more than once") s))
    else count_received (
        consume_inbound env msg validated
          (if is_admin_msg (msg_type msg) then process_admin env msg s else process_app env msg s))

abbrev pub validated_then : {S : Type 0} → Env S → Message → Session S × Bool → Session S
validated_then env msg (s, true) = dispatch env msg true (clear_gap s)
validated_then env msg (s, false) = s

unfoldable pub process_typed : {S : Type 0} → Env S → Message → Session S → Session S
process_typed env msg s =
    if equal (msg_type msg) MsgTypes.sequence_reset
    then counted_if (handle_sequence_reset env msg s)
    else if seq_validated s.state
    then validated_then env msg (validate_seq_num env msg s)
    else dispatch env msg false s

-- The frame is on the audit trail, and the peer is alive.
abbrev pub heard : {S : Type 0} → Env S → Message → Session S → Session S
heard env msg s = record (audit_frame env false msg.raw s) {
  last_recv_time = env.now;
  test_req_pending = false;
}

unfoldable pub process_message : {S : Type 0} → Env S → Message → Session S → Session S
process_message env msg s =
    if not (same_version msg s.cfg.id.version)
    then refuse env (codes "BeginString does not match session") (heard env msg s)
    else if not (same_parties msg s)
    then refuse env (codes "CompID mismatch") (heard env msg s)
    else if not (has msg Tags.msg_type)
    then process_untyped env msg (heard env msg s)
    else process_typed env msg (heard env msg s)

unfoldable pub send : {S : Type 0} → Env S → Message → Session S → Session S × Result Done
send env msg s =
    if same_state s.state active then send_message_locked env msg s else (s, err session_error)

unfoldable pub logon : {S : Type 0} → Env S → Session S → Session S × Result Done
logon env s =
    if same_state s.state not_connected || same_state s.state disconnected
    then send_logon env s
    else (s, err session_error)

unfoldable pub logout : {S : Type 0} → Env S → Bytes → Session S → Session S × Result Done
logout env reason s =
    if same_state s.state active
      || same_state s.state logon_sent
      || same_state s.state waiting_logon
    then (send_logout env reason s, ok tt)
    else (s, err session_error)

abbrev with_store : {S : Type 0} → Session S → S × Result Done → Session S × Result Done
with_store s (st, r) = (record s { store = st }, r)

unfoldable pub reset : {S : Type 0} → Env S → Session S → Session S × Result Done
reset env s =
    if same_state s.state active || same_state s.state logon_sent || same_state s.state logout_sent
    then (s, err session_error)
    else with_store
        (clear_gap (record s {
          state = not_connected;
          parser = Stream.reset s.parser;
          test_req_pending = false;
          pending_test_req_id = [];
          logout_notified = false;
        }))
        (env.stores.reset s.store)
