-- ===== src/Session/Admin.antt =====
-- src/session/session.cpp: the handlers of administrative messages.
use fix_protocol.Prelude.{
  ℕ, ◌-◌, ◌%◌, ◌^◌, Bool, true, false, not, ◌&&◌, ◌||◌, Option, none, some, [], ◌++◌, Bytes, codes,
  equal, if◌then◌else◌, ℤ, pos, negsuc, to_uint64, is_nonpositive, ltb, ◌==◌,
}
use fix_protocol.Prelude.Decimal.{int_to_decimal}
use fix_protocol.Core.Types.{Result, ok, err, Done}
use fix_protocol.Core.Tags
use fix_protocol.Core.Message.{Message, get, get_int, value_or}
use fix_protocol.Session.{
  Session, Env, SessionState, not_connected, waiting_logon, logon_sent, active, logout_sent,
  disconnected, same_state, logon, peer_reject, report, guarded, clear_gap, transition, disconnect,
  notify_logout,
}
use fix_protocol.Session.Sending.{send_logon, send_logout_echo, send_heartbeat}
use fix_protocol.Session.Sequence.{checked, refuse, is_yes}

-- `==` of integers.
abbrev pub same_int : ℤ → ℤ → Bool
same_int (pos m) (pos n) = m == n
same_int (negsuc m) (negsuc n) = m == n
same_int _ _ = false

-- `static_cast<int>` of an int64.
abbrev pub to_int32 : ℤ → ℤ
to_int32 z =
    let n = to_uint64 z % 2 ^ 32 in if ltb n (2 ^ 31) then pos n else negsuc (2 ^ 32 - n - 1)

-- The handshake is complete: the callback may fire.
abbrev pub became_active : {S : Type 0} → Env S → Bytes → Session S × Bool → Session S
became_active env raced (s, true) = guarded env logon (record s { logout_notified = false })
became_active env raced (s, false) = report raced s

abbrev pub answered : {S : Type 0} → Env S → Session S × Result Done → Session S
answered env (s, ok _) =
    became_active env (codes "logon race: session left WaitingLogon before Active was published")
      (transition waiting_logon active s)
answered env (s, err _) =
    report (codes "logon race: Logon response failed to send; on_logon suppressed") s

-- The branches on the state that the handler read first.
unfoldable pub logon_in_state : {S : Type 0} → Env S → SessionState → Session S → Session S
logon_in_state env waiting_logon s = answered env (send_logon env s)
logon_in_state env logon_sent s =
    became_active env
      (codes "logon race: session left LogonSent before Active was published; on_logon suppressed")
      (transition logon_sent active s)
logon_in_state env active s = refuse env (codes "Duplicate Logon") s
logon_in_state env not_connected s = s
logon_in_state env logout_sent s = s
logon_in_state env disconnected s = s

abbrev pub baseline : {S : Type 0} → Env S → Bool → Session S → Session S
baseline env wanted s =
    if wanted
    then checked (codes "logon: ResetSeqNumFlag baseline persist failed")
        (env.stores.set_next_target_seq_num 1 s.store) s
    else s

-- The peer's interval is taken over.
abbrev pub adopt : {S : Type 0} → ℤ → Session S → Session S
adopt hb s = record s {
  cfg = record s.cfg { heartbeat_interval = to_int32 hb };
  heartbeat_sec = to_int32 hb;
}

abbrev pub wants_baseline : Message → SessionState → Bool
wants_baseline msg a =
    is_yes (get msg Tags.reset_seq_num_flag)
    && (same_state a waiting_logon || same_state a logon_sent)

-- Everything behind the two checks of the interval.
abbrev pub accept_logon : {S : Type 0} → Env S → Message → ℤ → Session S → Session S
accept_logon env msg hb s =
    logon_in_state env s.state (clear_gap (baseline env (wants_baseline msg s.state) (adopt hb s)))

abbrev pub logon_with : {S : Type 0} → Env S → Message → Option ℤ → Session S → Session S
logon_with env msg none s = refuse env (codes "HeartBtInt required") s
logon_with env msg (some hb) s =
    if is_nonpositive hb
    then refuse env (codes "HeartBtInt required") s
    else if s.cfg.initiator && same_state s.state logon_sent && not (same_int hb s.heartbeat_sec)
    then refuse env (codes "HeartBtInt mismatch") s
    else accept_logon env msg hb s

unfoldable pub handle_logon : {S : Type 0} → Env S → Message → Session S → Session S
handle_logon env msg s = logon_with env msg (get_int msg Tags.heart_bt_int) s

unfoldable pub handle_logout : {S : Type 0} → Env S → Message → Session S → Session S
handle_logout env msg s =
    let reason = value_or (get msg Tags.text) [] in
    notify_logout env reason (
      if same_state s.state logout_sent
      then disconnect (transition logout_sent disconnected s).0
      else disconnect (send_logout_echo env s))

unfoldable pub handle_heartbeat : {S : Type 0} → Env S → Message → Session S → Session S
handle_heartbeat env msg s =
    if not s.test_req_pending
    then s
    else if equal (value_or (get msg Tags.test_req_id) []) s.pending_test_req_id
    then record s { pending_test_req_id = []; test_req_pending = false }
    else s

unfoldable pub handle_test_request : {S : Type 0} → Env S → Message → Session S → Session S
handle_test_request env msg s =
    send_heartbeat env (value_or (get msg Tags.test_req_id) (codes "TEST")) s

abbrev reason_text : Option ℤ → Bytes
reason_text none = []
reason_text (some z) = codes "session reject reason " ++ int_to_decimal z

abbrev or_text : Bytes → Bytes → Bytes
or_text v d = if equal v [] then d else v

abbrev number_or_zero : Option ℤ → ℕ
number_or_zero none = 0
number_or_zero (some z) = to_uint64 z

abbrev pub reject_info : Message → Bytes
reject_info msg =
    or_text (value_or (get msg Tags.text) []) (reason_text (get_int msg Tags.session_reject_reason))

abbrev pub rejected_seq : Message → ℕ
rejected_seq msg = number_or_zero (get_int msg Tags.ref_seq_num)

unfoldable pub handle_reject : {S : Type 0} → Env S → Message → Session S → Session S
handle_reject env msg s =
    if same_state s.state logon_sent
    then disconnect (
        notify_logout env (codes "Logon rejected: " ++ or_text (reject_info msg) (codes "unknown"))
          s)
    else guarded env (peer_reject (rejected_seq msg) (reject_info msg)) s
