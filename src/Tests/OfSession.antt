-- ===== src/Tests/OfSession.antt =====
-- src/session/session.cpp: the theorems of the session at concrete inputs, over the memory store.
use fix_protocol.Prelude.{
  ◌≢◌, ◌+◌, ◌≡◌, refl, ◌⊎◌, true, false, none, [], ◌∷◌, codes, pos, if◌then◌else◌, List, map, Bytes,
  ◌==◌, arith,
}
use fix_protocol.Core.Types.{fix_4_2, ok}
use fix_protocol.Core.Message.{soh, Message, get_int, seq_num, poss_dup, has_invalid_wire_chars}
use fix_protocol.Store.{wrap_seq}
use fix_protocol.Store.SortedMap.{Entry, entry, up_to, lower_bound, last_key}
use fix_protocol.Store.Memory.{MemoryStore, new_store, memory_store, get_messages}
use fix_protocol.Store.Memory.Lawful.{memory_store-Contract}
use fix_protocol.Serializer.Render.{field}
use fix_protocol.Session.{guarded, report, Session, Env, SessionConfig, active, new_session}
use fix_protocol.Session.Sending.{send_message_locked}
use fix_protocol.Session.Sending.Rollback.{Sends, send_message_locked-Sends}
use fix_protocol.Session.Sequence.{consume_inbound, validate_seq_num, handle_sequence_reset}
use fix_protocol.Session.Sequence.Gaps.{Advances, consume_inbound-target, validate_seq_num-expected}
use fix_protocol.Session.Sequence.Resets.{ResetsTo, handle_sequence_reset-ResetsTo}
use fix_protocol.Session.Resend.{replay_snapshot, handle_resend_request}
use fix_protocol.Session.Resend.Request.{heard, last_asked, handle_resend_request-Replayed}
use fix_protocol.Session.Resend.Spec.{Replayed}
use fix_protocol.Session.Resend.Range.{replay_snapshot-Replayed}
use fix_protocol.Session.Inbound.{process_message}
use fix_protocol.Session.States.{Moves}
use fix_protocol.Session.States.Machine.{process_message-Moves}

abbrev env : Env MemoryStore
env = record {
  stores = memory_store;
  now = 1000000;
  timestamp = codes "20240101-00:00:00.000";
  has_audit_log = true;
  dictionary = none;
  throws = λ _. none;
}

abbrev config : SessionConfig
config = record {
  id = record {
    version = fix_4_2;
    sender_comp_id = codes "US";
    target_comp_id = codes "THEM";
    qualifier = [];
  };
  initiator = true;
  heartbeat_interval = pos 30;
  logon_timeout = pos 10;
  logout_timeout = pos 5;
  reset_on_logon = false;
  validate_fields = false;
  username = [];
  password = [];
  default_appl_ver_id = [];
}

-- An established session.
abbrev live : Session MemoryStore
live = record (new_session env config new_store) { state = active }

-- The same with a gap that was asked for once, long ago.
abbrev stuck : Session MemoryStore
stuck = record live { gap_open = true; gap_rr_attempts = 1; gap_rr_last = 0 }

-- A message whose number is ahead of what is expected.
abbrev ahead : Message
ahead = record {
  fields =
      field 8 (codes "FIX.4.2")
      ∷ field 35 (codes "D")
      ∷ field 49 (codes "THEM")
      ∷ field 56 (codes "US")
      ∷ field 34 (codes "5")
      ∷ [];
  raw = codes "raw";
  duplicate_header = false;
}

send_message_locked-Sends_example :
    Sends env memory_store-Contract ahead live (send_message_locked env ahead live)
send_message_locked-Sends_example = send_message_locked-Sends env memory_store-Contract ahead live

consume_inbound-target_example :
    ((true ≡ true) ⊎ (poss_dup ahead ≡ false)
      → Advances env memory_store-Contract
          (wrap_seq (seq_num ahead + 1))
          live
          (consume_inbound env ahead true live))
    × (true ≡ false → poss_dup ahead ≡ true → consume_inbound env ahead true live ≡ live)
consume_inbound-target_example = consume_inbound-target env memory_store-Contract ahead true live

validate_seq_num-expected_example :
    let r = validate_seq_num env ahead live in
    (r.1 ≡ true → (seq_num ahead ≡ 1) × (seq_num ahead ≢ 0) × (r.0 ≡ live))
    × (seq_num ahead ≡ 1 → seq_num ahead ≢ 0 → r.1 ≡ true)
    × (r.0.store.target_seq ≡ 1)
unfolding memory_store new_session
validate_seq_num-expected_example = validate_seq_num-expected env memory_store-Contract ahead live

-- A reset to 9.
abbrev reset_to_9 : Message
reset_to_9 = record ahead { fields = field 35 (codes "4") ∷ field 36 (codes "9") ∷ [] }

handle_sequence_reset-ResetsTo_example :
    ResetsTo env memory_store-Contract reset_to_9 live (handle_sequence_reset env reset_to_9 live).0
handle_sequence_reset-ResetsTo_example =
    handle_sequence_reset-ResetsTo env memory_store-Contract reset_to_9 live

process_message-Moves_example : Moves live.state (process_message env ahead live).state
process_message-Moves_example = process_message-Moves env memory_store-Contract ahead live

-- An order as it was sent under the number 2, bars for SOH.
abbrev order : Bytes
order =
    map (λ c. if c == b'|' then soh else c)
      (codes "8=FIX.4.2|9=29|35=D|34=2|49=US|56=THEM|11=x|10=004|")

-- Two numbers stored, the second a frame that cannot be parsed.
abbrev frames : List Entry
frames = entry 2 order ∷ entry 3 (codes "junk") ∷ []

replay_snapshot-Replayed_example :
    Replayed env frames live 1 4 (replay_snapshot env 1 4 (ok frames) live)
unfolding has_invalid_wire_chars new_session
replay_snapshot-Replayed_example =
    replay_snapshot-Replayed env live 1 4 frames refl refl refl (omega arith, tt) (omega arith)

-- Three numbers are used up, and two of them stored.
abbrev traded : Session MemoryStore
traded = record live {
  store = record { sender_seq = 4; target_seq = 1; outbound = frames; inbound = [] };
}

-- A request for everything.
abbrev request : Message
request = record ahead {
  fields =
      field 35 (codes "2") ∷ field 34 (codes "1") ∷ field 7 (codes "1") ∷ field 16 (codes "0") ∷ [];
}

handle_resend_request-Replayed_example :
    Replayed env frames
      (heard env request 1 traded)
      1
      (last_asked env request 1 traded)
      (handle_resend_request env request traded)
unfolding has_invalid_wire_chars new_session get_int guarded report memory_store get_messages up_to
    lower_bound last_key
handle_resend_request-Replayed_example =
    handle_resend_request-Replayed env request 1 frames traded refl refl refl (omega arith, tt) refl
      (omega arith) (omega arith) refl
