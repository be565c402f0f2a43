-- ===== src/Audit/Trace.antt =====
-- src/log/message_log.cpp: what is done to the files of the audit log, and the entries in it.
pub mod Files
use fix_protocol.Prelude.{
  ℕ, zero, suc, ◌≡◌, refl, Bool, true, false, not, ◌&&◌, Option, none, some, List, [], ◌∷◌, ◌++◌,
  Bytes, arith, if◌then◌else◌, if_each, if_both, Bool-cases, ◌+◌, leb, length, inl, inr, sym, ap,
  ◌∙◌, append_assoc, append-nil, ℤ, pos, negsuc,
}
use fix_protocol.Audit.File.{
  Config, AuditEntry, Outside, DirFile, AuditFile, Effect, opened, removed, appended, rejected,
  unopened, flushed, closed, open_file, sweep, swept, for_days, apply_retention, close_current,
  rotate_locked, grown, write_entry, count, line_of, expires, free_name, stem_of, max_tries,
  with_file,
}
use fix_protocol.Audit.Writer.{flush_file, closed_file}

-- The entries that the writer is through with, in their order: written, refused by the stream, or
-- without a file to write them to.
unfoldable pub handled : List Effect → List AuditEntry
handled [] = []
handled (appended _ e ∷ t) = handled t ++ e ∷ []
handled (rejected e ∷ t) = handled t ++ e ∷ []
handled (unopened e ∷ t) = handled t ++ e ∷ []
handled (opened _ ∷ t) = handled t
handled (removed _ ∷ t) = handled t
handled (flushed ∷ t) = handled t
handled (closed ∷ t) = handled t

-- The entries written to the open file and not flushed since.
unfoldable pub unflushed : List Effect → List AuditEntry
unflushed [] = []
unflushed (appended _ e ∷ t) = unflushed t ++ e ∷ []
unflushed (flushed ∷ t) = []
unflushed (closed ∷ t) = []
unflushed (opened _ ∷ t) = unflushed t
unflushed (removed _ ∷ t) = unflushed t
unflushed (rejected _ ∷ t) = unflushed t
unflushed (unopened _ ∷ t) = unflushed t

-- What a change of the files leaves: more was done, entries `es` were handled, and a file that is not
-- open has nothing unflushed.
pub record Does (es : List AuditEntry) (s t : AuditFile) : Type 0 where
  pub more : List Effect
  pub grows : t.trace ≡ more ++ s.trace
  pub handles : handled t.trace ≡ handled s.trace ++ es
  pub shut :
      (s.is_open ≡ false → unflushed s.trace ≡ []) → t.is_open ≡ false → unflushed t.trace ≡ []

pub Does-nothing : (s : AuditFile) → Does [] s s
Does-nothing s = record {
  more = [];
  grows = refl;
  handles = sym (append-nil (handled s.trace));
  shut = λ h. h;
}

pub Does-then :
    (es fs : List AuditEntry) (s t u : AuditFile) → Does es s t → Does fs t u → Does (es ++ fs) s u
Does-then es fs s t u a b = record {
  more = b.more ++ a.more;
  grows = b.grows ∙ ap (λ x. b.more ++ x) a.grows ∙ sym (append_assoc b.more a.more s.trace);
  handles = b.handles ∙ ap (λ x. x ++ fs) a.handles ∙ append_assoc (handled s.trace) es fs;
  shut = λ h. b.shut (a.shut h);
}
