-- ===== src/Session.antt =====
-- include/fix/session/session.hpp and src/session/session.cpp: the state of a `Session`, what it
-- does to the outside, and the operations that the others share. An operation runs alone, as the
-- locks and the one I/O thread arrange it, and reads the clock once.
pub mod Sending
pub mod Sequence
pub mod Admin
pub mod Resend
pub mod Inbound
pub mod Timer
pub mod States
pub mod Manager
pub mod Conforming
use fix_protocol.Prelude.{
  ℕ, zero, suc, ◌+◌, ◌-◌, ◌*◌, ◌%◌, ◌^◌, Bool, true, false, not, ◌&&◌, ◌||◌, Option, none, some,
  List, [], ◌∷◌, ◌++◌, Bytes, codes, if◌then◌else◌, ℤ, pos, negsuc, leb, ltb, max,
}
use fix_protocol.Core.Types.{Result, ok, err, SessionId}
use fix_protocol.Core.Message.{Message}
use fix_protocol.Parser.Frame.{default_options}
use fix_protocol.Parser.Stream.{StreamParser, init}
use fix_protocol.Parser.Stream as Stream
use fix_protocol.Serializer.{Builder, new_builder}
use fix_protocol.Store.{MessageStore}

pub record SessionConfig : Type 0 where
  pub id : SessionId
  pub initiator : Bool
  pub heartbeat_interval : ℤ
  pub logon_timeout : ℤ
  pub logout_timeout : ℤ
  pub reset_on_logon : Bool
  pub validate_fields : Bool
  pub username : Bytes
  pub password : Bytes
  pub default_appl_ver_id : Bytes

pub data SessionState : Type 0 where
  not_connected waiting_logon logon_sent active logout_sent disconnected : SessionState

unfoldable pub state_text : SessionState → Bytes
state_text not_connected = codes "NotConnected"
state_text waiting_logon = codes "WaitingLogon"
state_text logon_sent = codes "LogonSent"
state_text active = codes "Active"
state_text logout_sent = codes "LogoutSent"
state_text disconnected = codes "Disconnected"

-- `operator==` of states.
abbrev pub same_state : SessionState → SessionState → Bool
same_state not_connected not_connected = true
same_state waiting_logon waiting_logon = true
same_state logon_sent logon_sent = true
same_state active active = true
same_state logout_sent logout_sent = true
same_state disconnected disconnected = true
same_state _ _ = false

-- What a session does to the outside: bytes handed to the transport, its close, audit entries and
-- the calls of the application's callbacks.
pub data Effect : Type 0 where
  sent : Bytes → Effect
  closed logon heartbeat_timeout : Effect
  audited : Bool → Bytes → Effect
  logout : Bytes → Effect
  sequence_gap resend_request : ℕ → ℕ → Effect
  delivered : Message → Effect
  peer_reject : ℕ → Bytes → Effect
  reported : Bytes → Effect

-- A data dictionary, by the two questions that a session asks of it.
pub record Dictionary : Type 0 where
  pub defines : Bytes → Bool
  pub validate : Message → Option Bytes

-- What an operation runs with: the store, the clock and its text, whether an audit log is set, the
-- dictionary, and which calls to the outside throw, with the exception's text.
pub record Env (S : Type 0) : Type 0 where
  pub stores : MessageStore S
  pub now : ℕ
  pub timestamp : Bytes
  pub has_audit_log : Bool
  pub dictionary : Option Dictionary
  pub throws : Effect → Option Bytes

pub record Session (S : Type 0) : Type 0 where
  pub cfg : SessionConfig
  pub store : S
  pub parser : StreamParser
  pub builder : Builder
  pub state : SessionState
  pub msgs_sent : ℕ
  pub msgs_received : ℕ
  pub errors : ℕ
  pub last_send_time : ℕ
  pub last_recv_time : ℕ
  pub logon_sent_time : ℕ
  pub test_req_sent_time : ℕ
  pub logout_sent_time : ℕ
  pub test_req_counter : ℕ
  pub pending_test_req_id : Bytes
  pub test_req_pending : Bool
  pub gap_open : Bool
  pub gap_rr_last : ℕ
  pub gap_rr_attempts : ℕ
  pub resend_corrupt : ℕ
  pub logout_notified : Bool
  pub heartbeat_sec : ℤ
  pub effects : List Effect

abbrev pub wrap_count : ℕ → ℕ
wrap_count n = n % 2 ^ 64

-- `std::max(1, interval)`.
abbrev at_least_one : ℤ → ℤ
at_least_one (pos n) = pos (max 1 n)
at_least_one (negsuc n) = pos 1

-- The constructor.
unfoldable pub new_session : {S : Type 0} → Env S → SessionConfig → S → Session S
unfolding init
new_session env cfg store = record {
  cfg = record cfg { heartbeat_interval = at_least_one cfg.heartbeat_interval };
  store = store;
  parser = init default_options;
  builder = new_builder;
  state = not_connected;
  msgs_sent = 0;
  msgs_received = 0;
  errors = 0;
  last_send_time = env.now;
  last_recv_time = env.now;
  logon_sent_time = env.now;
  test_req_sent_time = 0;
  logout_sent_time = 0;
  test_req_counter = 0;
  pending_test_req_id = [];
  test_req_pending = false;
  gap_open = false;
  gap_rr_last = 0;
  gap_rr_attempts = 0;
  resend_corrupt = 0;
  logout_notified = false;
  heartbeat_sec = at_least_one cfg.heartbeat_interval;
  effects = [];
}

abbrev pub emit : {S : Type 0} → Effect → Session S → Session S
emit e s = record s { effects = s.effects ++ e ∷ [] }

-- `report`, as it is when the error reaches the sink.
unfoldable pub report : {S : Type 0} → Bytes → Session S → Session S
report what s = record s {
  errors = wrap_count (s.errors + 1);
  effects = s.effects ++ reported what ∷ [];
}

abbrev pub report_thrown : {S : Type 0} → Bytes → Option Bytes → Session S → Session S
report_thrown prefix none s = s
report_thrown prefix (some what) s = report (prefix ++ what) s

-- `guarded`: the call is made, and what it throws is reported.
unfoldable pub guarded : {S : Type 0} → Env S → Effect → Session S → Session S
guarded env e s = report_thrown [] (env.throws e) (emit e s)

unfoldable pub audit_frame : {S : Type 0} → Env S → Bool → Bytes → Session S → Session S
audit_frame env outbound raw s =
    if env.has_audit_log
    then report_thrown (codes "audit log: entry dropped: ") (env.throws (audited outbound raw))
        (emit (audited outbound raw) s)
    else s

unfoldable pub clear_gap : {S : Type 0} → Session S → Session S
clear_gap s = record s { gap_rr_attempts = 0; gap_rr_last = 0; gap_open = false }

-- The compare-and-exchange.
unfoldable pub transition :
    {S : Type 0} → SessionState → SessionState → Session S → Session S × Bool
transition expected desired s =
    if same_state s.state expected then (record s { state = desired }, true) else (s, false)

unfoldable pub disconnect : {S : Type 0} → Session S → Session S
disconnect s = record s {
  state = disconnected;
  test_req_pending = false;
  pending_test_req_id = [];
  gap_rr_attempts = 0;
  gap_rr_last = 0;
  gap_open = false;
  parser = Stream.reset s.parser;
  effects = s.effects ++ closed ∷ [];
}

unfoldable pub notify_logout : {S : Type 0} → Env S → Bytes → Session S → Session S
notify_logout env reason s =
    if s.logout_notified
    then s
    else guarded env (logout reason) (record s { logout_notified = true })
