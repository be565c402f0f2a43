-- ===== src/Session/Sequence.antt =====
-- src/session/session.cpp: the sequence numbers of inbound messages.
pub mod Gaps
pub mod Resets
use fix_protocol.Prelude.{
  ℕ, ◌+◌, ◌%◌, ◌^◌, Bool, true, false, not, ◌&&◌, ◌||◌, Option, none, some, List, [], ◌∷◌, ◌++◌,
  Bytes, codes, equal, if◌then◌else◌, ℤ, to_uint64, is_nonpositive, ltb, leb, ◌==◌,
}
use fix_protocol.Core.Types.{Result, ok, err, Done}
use fix_protocol.Core.RejectReason.{required_tag_missing}
use fix_protocol.Core.Tags
use fix_protocol.Core.Message.{Message, get, get_int, value_or, seq_num, poss_dup, msg_type}
use fix_protocol.Store.{wrap_seq}
use fix_protocol.Session.{Session, Env, sequence_gap, report, guarded, clear_gap, disconnect}
use fix_protocol.Session.Sending.{send_logout, send_reject, send_resend_request}

-- A store operation whose failure is only reported.
abbrev pub checked : {S : Type 0} → Bytes → S × Result Done → Session S → Session S
checked what (st, ok _) s = record s { store = st }
checked what (st, err _) s = report what (record s { store = st })

unfoldable pub set_target : {S : Type 0} → Env S → ℕ → Session S → Session S
set_target env n s =
    checked (codes "sequence reset: NewSeqNo persist failed")
      (env.stores.set_next_target_seq_num n s.store) s

abbrev pub advance_target : {S : Type 0} → Env S → Message → Session S → Session S
advance_target env msg s =
    checked (codes "consume: NextTargetMsgSeqNum advance failed")
      (env.stores.advance_next_target_seq_num (wrap_seq (seq_num msg + 1)) s.store) s

abbrev pub keep_inbound : {S : Type 0} → Env S → Message → Session S → Session S
keep_inbound env msg s =
    checked (codes "consume: inbound audit persist failed")
      (env.stores.store_inbound (seq_num msg) msg.raw s.store) s

unfoldable pub consume_inbound : {S : Type 0} → Env S → Message → Bool → Session S → Session S
consume_inbound env msg seq_validated s =
    if not seq_validated && poss_dup msg then s else keep_inbound env msg (advance_target env msg s)

-- One ResendRequest for a gap that was closed, none for one that is open.
unfoldable pub request_gap : {S : Type 0} → Env S → ℕ → Session S → Session S
request_gap env first s =
    if s.gap_open
    then s
    else send_resend_request env first 0
        (record s { gap_rr_attempts = 1; gap_rr_last = env.now; gap_open = true })

unfoldable pub validate_seq_num : {S : Type 0} → Env S → Message → Session S → Session S × Bool
validate_seq_num env msg s =
    let expected = env.stores.next_target_seq_num s.store in
    let received = seq_num msg in
    if received == 0
    then (send_reject env 0 required_tag_missing (msg_type msg) Tags.msg_seq_num [] s, false)
    else if ltb expected received
    then (request_gap env expected (guarded env (sequence_gap expected received) s), false)
    else if ltb received expected
    then (if not (poss_dup msg)
        then (disconnect (send_logout env (codes "MsgSeqNum too low") s), false)
        else (s, false))
    else (s, true)

-- The message is refused with a Logout, and the connection dropped.
abbrev pub refuse : {S : Type 0} → Env S → Bytes → Session S → Session S
refuse env why s = disconnect (send_logout env why s)

abbrev pub is_yes : Option Bytes → Bool
is_yes v = equal (value_or v (codes "N")) (codes "Y")

abbrev pub fill_to : {S : Type 0} → Env S → ℕ → Option ℤ → Session S → Session S
fill_to env expected none s = refuse env (codes "invalid NewSeqNo") s
fill_to env expected (some z) s =
    if leb (to_uint64 z) expected
    then refuse env (codes "invalid NewSeqNo") s
    else clear_gap (set_target env (to_uint64 z) s)

abbrev pub reset_to : {S : Type 0} → Env S → Option ℤ → Session S → Session S
reset_to env none s = refuse env (codes "invalid NewSeqNo") s
reset_to env (some z) s =
    if is_nonpositive z
    then refuse env (codes "invalid NewSeqNo") s
    else clear_gap (set_target env (to_uint64 z) s)

unfoldable pub handle_sequence_reset : {S : Type 0} → Env S → Message → Session S → Session S × Bool
handle_sequence_reset env msg s =
    let expected = env.stores.next_target_seq_num s.store in
    let received = seq_num msg in
    if is_yes (get msg Tags.gap_fill_flag)
    then (if not (poss_dup msg)
        then (refuse env (codes "SequenceReset GapFill requires PossDupFlag") s, true)
        else if ltb expected received
        then (request_gap env expected s, false)
        else if ltb received expected
        then (s, true)
        else (fill_to env expected (get_int msg Tags.new_seq_no) s, true))
    else (reset_to env (get_int msg Tags.new_seq_no) s, true)
