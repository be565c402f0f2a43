-- ===== src/Session/Resend/Range.antt =====
-- src/session/session.cpp, `handle_resend_request`: a replay answers for the whole range.
use fix_protocol.Prelude.{ℕ, ◌≤◌, ◌≡◌, false, List}
use fix_protocol.Core.Types.{ok}
use fix_protocol.Core.Message.{has_invalid_wire_chars}
use fix_protocol.Store.SortedMap.{Entry, Ascending}
use fix_protocol.Session.{Session, Env}
use fix_protocol.Session.Sending.{envelope}
use fix_protocol.Session.Resend.{replay_snapshot}
use fix_protocol.Session.Resend.Spec.{Replayed}
use fix_protocol.Session.Resend.Coverage.{replay_snapshot-fillable}
use fix_protocol.Session.Resend.GapFill.{version_text-clean, filler-Succeeds}

module _ {S : Type 0} (env : Env S) where
  -- When the CompIDs of the session and the timestamp hold no NUL or SOH, the replay of a range,
  -- whatever frames the store has for it in the order of their numbers, puts frames on the wire that
  -- cover every number of the range exactly once and in order. A gap-fill is a SequenceReset with
  -- GapFillFlag and PossDupFlag Y whose number is the first of those it fills and whose NewSeqNo is the
  -- one behind them, and it fills no number under which the store has a frame that can be sent again:
  -- one of which the parser reads an application message whose duplicate can be serialized. Such a
  -- message is sent again under its own number with PossDupFlag Y, its SendingTime as
  -- OrigSendingTime, or the OrigSendingTime it had if its SendingTime is missing or holds NUL or SOH,
  -- and its other fields as they were.
  pub replay_snapshot-Replayed :
      (s : Session S) (first last : ℕ) (frames : List Entry)
      → has_invalid_wire_chars s.cfg.id.sender_comp_id ≡ false
      → has_invalid_wire_chars s.cfg.id.target_comp_id ≡ false
      → has_invalid_wire_chars env.timestamp ≡ false
      → Ascending frames
      → first ≤ last
      → Replayed env frames s first last (replay_snapshot env first last (ok frames) s)
  replay_snapshot-Replayed s first last frames sender target time asc le =
      replay_snapshot-fillable env frames s
        (λ n c p.
          filler-Succeeds n (envelope env c s) p (version_text-clean s.cfg.id.version)
            (record { sender = sender; target = target; time = time }))
        first last asc le
