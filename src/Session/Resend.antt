-- ===== src/Session/Resend.antt =====
-- src/session/session.cpp: the replay that answers a ResendRequest.
pub mod Coverage
pub mod Duplicate
pub mod GapFill
pub mod Range
pub mod Request
pub mod Spec
use fix_protocol.Prelude.{
  ℕ, ◌+◌, ◌-◌, Bool, ◌||◌, Option, none, some, List, [], ◌∷◌, Bytes, codes, equal, if◌then◌else◌, ℤ,
  to_int64, to_uint64, is_nonpositive, ltb, leb, ◌==◌,
}
use fix_protocol.Core.Types.{Result, ok, err}
use fix_protocol.Core.RejectReason.{required_tag_missing, value_incorrect}
use fix_protocol.Core.Tags
use fix_protocol.Core.MsgTypes
use fix_protocol.Core.Message.{Message, set, set_int, message, get, get_int, msg_type, seq_num}
use fix_protocol.Parser.Frame.{default_options}
use fix_protocol.Parser.Stream.{init, feed}
use fix_protocol.Parser.Stream as Stream
use fix_protocol.Serializer.{Builder, try_serialize}
use fix_protocol.Store.SortedMap.{Entry}
use fix_protocol.Session.{Session, Env, resend_request, report, guarded, wrap_count}
use fix_protocol.Session.Sending.{envelope, emit_wire_locked, send_reject}

unfoldable pub is_admin_msg : Bytes → Bool
is_admin_msg mt =
    equal mt MsgTypes.logon
    || equal mt MsgTypes.logout
    || equal mt MsgTypes.heartbeat
    || equal mt MsgTypes.test_request
    || equal mt MsgTypes.resend_request
    || equal mt MsgTypes.sequence_reset
    || equal mt MsgTypes.reject

unfoldable pub gap_fill : ℕ → Message
gap_fill up_to =
    let m = (set (message MsgTypes.sequence_reset) Tags.gap_fill_flag (codes "Y")).0 in
    let n = (set m Tags.poss_dup_flag (codes "Y")).0 in
    (set_int n Tags.new_seq_no (to_int64 up_to)).0

-- The cursor, the first number not accounted for, and the session.
abbrev pub Replay : Type 0 → Type 0
Replay S = ℕ × Session S

abbrev pub filled : {S : Type 0} → Env S → ℕ → Builder × Result Bytes → Replay S → Replay S
filled env up_to (b, ok wire) (cursor, s) =
    (up_to, emit_wire_locked env wire (record s { builder = b }))
filled env up_to (b, err _) (cursor, s) =
    (cursor, report (codes "resend: gap-fill serialisation failed") (record s { builder = b }))

-- The lambda `flush_gap`.
unfoldable pub flush_gap : {S : Type 0} → Env S → ℕ → Replay S → Replay S
flush_gap env up_to (cursor, s) =
    if leb up_to cursor
    then (cursor, s)
    else filled env up_to (try_serialize (gap_fill up_to) (envelope env cursor s) s.builder)
        (cursor, s)

-- What the local parser makes of a stored frame; nothing if it is corrupt.
abbrev not_empty : Option Message → Option Message
not_empty none = none
not_empty (some m) = if equal (msg_type m) [] then none else some m

unfoldable pub stored_message : Bytes → Option Message
stored_message wire = not_empty (Stream.next (feed (init default_options) wire)).1

abbrev pub with_orig : Option Bytes → Message → Message
with_orig none m = m
with_orig (some time) m = (set m Tags.orig_sending_time time).0

-- The message, marked as a possible duplicate, with the time it was first sent.
unfoldable pub retag : Message → Message
retag m = let n = (set m Tags.poss_dup_flag (codes "Y")).0 in with_orig (get n Tags.sending_time) n

abbrev pub count_corrupt : {S : Type 0} → Session S → Session S
count_corrupt s = record s { resend_corrupt = wrap_count (s.resend_corrupt + 1) }

abbrev pub resent : {S : Type 0} → Env S → ℕ → Builder × Result Bytes → Replay S → Replay S
resent env seq (b, ok wire) (cursor, s) =
    (seq + 1, emit_wire_locked env wire (record s { builder = b }))
resent env seq (b, err _) (cursor, s) =
    flush_gap env (seq + 1) (cursor, count_corrupt (record s { builder = b }))

abbrev pub resend_app : {S : Type 0} → Env S → ℕ → Message → Replay S → Replay S
resend_app env seq m (cursor, s) =
    resent env seq (try_serialize (retag m) (envelope env seq s) s.builder) (cursor, s)

-- One stored frame within the range: an application message is sent again behind the gap-fill of
-- what stands before it; any other is left to the next gap-fill.
unfoldable pub replay_frame : {S : Type 0} → Env S → ℕ → Option Message → Replay S → Replay S
replay_frame env seq none (cursor, s) = (cursor, count_corrupt s)
replay_frame env seq (some m) r =
    if is_admin_msg (msg_type m) then r else resend_app env seq m (flush_gap env seq r)

unfoldable pub replay_frames : {S : Type 0} → Env S → ℕ → List Entry → Replay S → Replay S
replay_frames env range_end [] r = r
replay_frames env range_end (f ∷ fs) r =
    let skipped = replay_frames env range_end fs r in
    let played =
      replay_frames env range_end fs (replay_frame env f.seq (stored_message f.value) r) in
    if ltb f.seq r.0 then skipped else if ltb range_end f.seq then r else played

abbrev pub end_or_zero : Option ℤ → ℕ
end_or_zero none = 0
end_or_zero (some z) = to_uint64 z

-- The end of the range: the last number sent, if the request has no end or one past it.
abbrev pub range_end : ℕ → ℕ → ℕ
range_end last next_sender = if last == 0 || leb next_sender last then next_sender - 1 else last

abbrev pub replay_snapshot :
    {S : Type 0} → Env S → ℕ → ℕ → Result (List Entry) → Session S → Session S
replay_snapshot env first last (err _) s =
    report (codes "resend: store read failed; replay suppressed") s
replay_snapshot env first last (ok frames) s =
    if ltb last first
    then s
    else (flush_gap env (last + 1) (replay_frames env last frames (first, s))).1

abbrev pub bad_request : {S : Type 0} → Env S → Message → Bytes → Session S → Session S
bad_request env msg why s =
    send_reject env (seq_num msg) value_incorrect (msg_type msg) Tags.begin_seq_no why s

abbrev pub resend_from : {S : Type 0} → Env S → Message → ℕ → ℕ → Session S → Session S
resend_from env msg first last s =
    let t = guarded env (resend_request first last) s in
    let next_sender = env.stores.next_sender_seq_num t.store in
    if ltb next_sender first
    then bad_request env msg (codes "BeginSeqNo > NextSenderMsgSeqNum") t
    else replay_snapshot env first (range_end last next_sender)
        (env.stores.get_messages first last t.store) t

abbrev pub resend_with : {S : Type 0} → Env S → Message → Option ℤ → Session S → Session S
resend_with env msg none s =
    send_reject env (seq_num msg) required_tag_missing (msg_type msg) Tags.begin_seq_no
      (codes "missing BeginSeqNo") s
resend_with env msg (some z) s =
    if is_nonpositive z
    then bad_request env msg (codes "BeginSeqNo must be >= 1") s
    else resend_from env msg (to_uint64 z) (end_or_zero (get_int msg Tags.end_seq_no)) s

unfoldable pub handle_resend_request : {S : Type 0} → Env S → Message → Session S → Session S
handle_resend_request env msg s = resend_with env msg (get_int msg Tags.begin_seq_no) s
