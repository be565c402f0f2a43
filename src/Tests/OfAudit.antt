-- ===== src/Tests/OfAudit.antt =====
-- src/log/message_log.cpp: the theorems of the audit log at concrete inputs.
use mathlib.Core.List.{Memᴰ}
use fix_protocol.Prelude.{
  ◌&&◌, ℕ, ◌≤◌, ◌≡◌, refl, ◌⊎◌, true, false, some, List, [], ◌∷◌, Bytes, arith, equal, codes, pos,
}
use fix_protocol.Prelude.Decimal.{to_decimal}
use fix_protocol.Audit.File.{
  Config, DirFile, Outside, AuditEntry, file_name, stem_of, open_file, apply_retention, has_file,
  free_name, rotate_locked, close_current, write_entry, line_of,
}
use fix_protocol.Audit.Writer.{
  AuditLog, open_log, closed_file, started, is_acknowledged, request_flush, write_step, rotate,
  flush_file, when_drained, log, Action, logs, writes, rotates, act, run,
}
use fix_protocol.Audit.Kept.{accepted, Kept}
use fix_protocol.Audit.Kept.Run.{open_log-Kept}
use fix_protocol.Audit.Kept.Losses.{lost, all_fine, run-Keeps}
use fix_protocol.Audit.Flush.{Flushed, flush-Flushed}
use fix_protocol.Audit.Drains.{alone, work, writes-acknowledge}
use fix_protocol.Audit.Rotation.{MayGo, open_file-new, apply_retention-keeps}

-- Every call succeeds.
abbrev fine : Outside
fine = record {
  now = 900000000;
  file_time = 900000000;
  stamp = λ _. codes "20240101_000000";
  utc_text = λ _. codes "2024-01-01T00:00:00.000Z";
  takes = true;
  opens = true;
  is_hidden = λ _. false;
  steps = some 9;
}

abbrev config : Config
config = record {
  base_name = codes "fix_audit";
  max_size = 1000;
  retain_days = pos 7;
  max_queue = 2;
}

abbrev old_log : DirFile
old_log = record {
  name = codes "fix_audit_20230101_000000.log";
  is_regular = true;
  written_at = some 1000;
  is_removable = true;
}

-- The file of a start in the same second.
abbrev same_second : DirFile
same_second = record {
  name = codes "fix_audit_20240101_000000.log";
  is_regular = true;
  written_at = some 900000000;
  is_removable = true;
}

abbrev found : List DirFile
found = old_log ∷ same_second ∷ []

open_file-new_example :
    (has_file (codes "fix_audit_20240101_000000_1.log") found ≡ false)
    ⊎ (fine.is_hidden (codes "fix_audit_20240101_000000_1.log") ≡ true)
    ⊎ ((k : ℕ) → k ≤ 1000000 → has_file (file_name (stem_of fine config 900000000) k) found ≡ true)
unfolding open_file free_name has_file equal to_decimal
open_file-new_example =
    open_file-new fine 900000000 (closed_file config found)
      (codes "fix_audit_20240101_000000_1.log") refl

apply_retention-keeps_example :
    Memᴰ old_log (apply_retention fine (closed_file config found)).directory
    ⊎ MayGo fine (closed_file config found) old_log
apply_retention-keeps_example =
    apply_retention-keeps fine (closed_file config found) old_log (Memᴰ.head refl)

-- The log that was opened.
abbrev opened_log : AuditLog
opened_log = started (open_file fine 900000000 (apply_retention fine (closed_file config found)))

opens : open_log fine config found ≡ some opened_log
unfolding open_log open_file
opens = refl

abbrev entry : Bytes → AuditEntry
entry raw = record { timestamp = 1; session_id = codes "A"; outbound = true; raw = raw }

-- The third entry finds the queue full.
abbrev three : List Action
three =
    logs (entry (codes "a"))
    ∷ logs (entry (codes "b"))
    ∷ logs (entry (codes "c"))
    ∷ writes fine
    ∷ rotates fine
    ∷ []

run-Keeps_example :
    Kept (accepted three opened_log) (run three opened_log)
    × ((opened_log.file.is_open && all_fine three ≡ false)
        ⊎ (lost (run three opened_log).file.trace ≡ lost opened_log.file.trace))
run-Keeps_example = run-Keeps [] three opened_log (open_log-Kept fine config found opened_log opens)

-- The queue is written, another entry comes in, and the writer goes on.
abbrev afterwards : List Action
afterwards =
    writes fine
    ∷ writes fine
    ∷ logs (entry (codes "d"))
    ∷ alone (fine ∷ fine ∷ fine ∷ fine ∷ fine ∷ fine ∷ fine ∷ [])

abbrev waiting : AuditLog
waiting = request_flush (run three opened_log)

not_yet : is_acknowledged waiting.flush_req waiting ≡ false
unfolding request_flush run act rotate write_step log open_file apply_retention write_entry
    rotate_locked close_current
not_yet = refl

done : is_acknowledged waiting.flush_req (run afterwards waiting) ≡ true
unfolding request_flush run act rotate write_step log open_file apply_retention write_entry
    rotate_locked close_current line_of when_drained flush_file
done = refl

flush-Flushed_example : Flushed (accepted three opened_log) (run afterwards waiting).file.trace
flush-Flushed_example =
    flush-Flushed fine config found opened_log three afterwards opens not_yet done

-- A flush was asked for while one entry waits.
abbrev asked : AuditLog
asked = record opened_log { queue = entry (codes "a") ∷ []; flush_req = 1 }

writes-acknowledge_example :
    (run (alone (fine ∷ fine ∷ fine ∷ fine ∷ fine ∷ [])) asked).flush_done ≡ asked.flush_req
unfolding work
writes-acknowledge_example =
    writes-acknowledge (fine ∷ fine ∷ fine ∷ fine ∷ fine ∷ []) asked (λ e. cc) (omega arith)
      (omega arith)
