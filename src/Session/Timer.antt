-- ===== src/Session/Timer.antt =====
-- src/session/session.cpp: the timer and a new connection.
pub mod Budget
use fix_protocol.Prelude.{
  ℕ, zero, suc, ◌+◌, ◌-◌, ◌*◌, ◌/◌, Bool, true, false, not, ◌&&◌, ◌||◌, [], Bytes, codes, ◌++◌,
  if◌then◌else◌, ℤ, pos, negsuc, ltb, leb,
}
use fix_protocol.Core.Types.{Result, ok, err, Done, error_message}
use fix_protocol.Parser.Stream as Stream
use fix_protocol.Session.{
  Session, Env, SessionState, not_connected, waiting_logon, logon_sent, active, logout_sent,
  disconnected, same_state, heartbeat_timeout, emit, report, clear_gap, disconnect, notify_logout,
}
use fix_protocol.Session.Sending.{send_heartbeat, send_test_request, send_resend_request}
use fix_protocol.Session.Inbound as Inbound

-- Seconds in milliseconds.
abbrev pub ms : ℤ → ℤ
ms (pos n) = pos (n * 1000)
ms (negsuc n) = negsuc (suc n * 1000 - 1)

-- `hb + hb / 5`, with the division of C++.
abbrev pub with_grace : ℤ → ℤ
with_grace (pos n) = pos (n + n / 5)
with_grace (negsuc n) = negsuc (n + suc n / 5)

-- `now - last >= wait`.
abbrev pub due : ℕ → ℕ → ℤ → Bool
due now last (pos n) = leb (last + n) now
due now last (negsuc n) = leb last (now + suc n)

abbrev pub max_gap_retries : ℕ
max_gap_retries = 5

unfoldable pub beat : {S : Type 0} → Env S → Session S → Session S
beat env s =
    if due env.now s.last_send_time (ms s.heartbeat_sec) then send_heartbeat env [] s else s

unfoldable pub probe : {S : Type 0} → Env S → ℤ → Session S → Session S
probe env hb s =
    if not s.test_req_pending
    then (if due env.now s.last_recv_time hb then send_test_request env s else s)
    else if due env.now s.test_req_sent_time (with_grace hb)
    then disconnect (emit heartbeat_timeout s)
    else s

abbrev pub wants_retry : {S : Type 0} → Env S → ℤ → Session S → Bool
wants_retry env hb s =
    s.gap_open && leb 1 s.gap_rr_attempts && due env.now s.gap_rr_last (with_grace hb)

unfoldable pub exhausted : {S : Type 0} → Session S → Session S
exhausted s = disconnect (
    report
      (codes "sequence gap: ResendRequest retry budget exhausted (kMaxGapRetries); disconnecting")
      (record s { gap_rr_attempts = s.gap_rr_attempts + 1 }))

unfoldable pub ask_again : {S : Type 0} → Env S → Session S → Session S
ask_again env s =
    send_resend_request env (env.stores.next_target_seq_num s.store) 0
      (record s { gap_rr_attempts = s.gap_rr_attempts + 1; gap_rr_last = env.now })

-- An open gap: another ResendRequest when it is due, and no more of them past the budget.
unfoldable pub retry_gap : {S : Type 0} → Env S → ℤ → Session S → Session S
retry_gap env hb s =
    if wants_retry env hb s
    then (if ltb max_gap_retries (s.gap_rr_attempts + 1) then exhausted s else ask_again env s)
    else s

abbrev wait_logout : {S : Type 0} → Env S → Session S → Session S
wait_logout env s =
    if due env.now s.logout_sent_time (ms s.cfg.logout_timeout)
    then disconnect (notify_logout env (codes "logout timeout") s)
    else beat env s

abbrev wait_logon : {S : Type 0} → Env S → Session S → Session S
wait_logon env s =
    if due env.now s.logon_sent_time (ms s.cfg.logon_timeout) then disconnect s else s

-- By the state that the timer read first.
abbrev timer_in_state : {S : Type 0} → Env S → SessionState → Session S → Session S
timer_in_state env active s =
    let hb = ms s.heartbeat_sec in retry_gap env hb (probe env hb (beat env s))
timer_in_state env logon_sent s = wait_logon env s
timer_in_state env logout_sent s = wait_logout env s
timer_in_state env not_connected s = s
timer_in_state env waiting_logon s = s
timer_in_state env disconnected s = s

unfoldable pub on_timer : {S : Type 0} → Env S → Session S → Session S
on_timer env s = timer_in_state env s.state s

abbrev reconnected : {S : Type 0} → Session S × Result Done → Session S
reconnected (s, ok _) = s
reconnected (s, err e) = report (codes "reconnect: logon failed: " ++ error_message e) s

unfoldable pub on_transport_connected : {S : Type 0} → Env S → Session S → Session S
on_transport_connected env s =
    let t = clear_gap (record s {
      parser = Stream.reset s.parser;
      test_req_pending = false;
      pending_test_req_id = [];
      logout_notified = false;
      last_send_time = env.now;
      last_recv_time = env.now;
      logon_sent_time = env.now;
      logout_sent_time = env.now;
    }) in
    let idle = same_state s.state not_connected || same_state s.state disconnected in
    if s.cfg.initiator
    then reconnected
        (Inbound.logon env (record t { state = if idle then t.state else disconnected }))
    else record t { state = waiting_logon }
