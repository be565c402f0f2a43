-- ===== src/Session/Conforming.antt =====
-- src/session/session.cpp, `process_app`, with src/dictionary/data_dictionary.cpp: which application
-- messages reach the application.
use fix_protocol.Prelude.{
  ◌≡◌, ◌≢◌, refl, Bool, true, false, not, Option, none, some, Bytes, codes, if◌then◌else◌, sym, ap,
  ◌∙◌, subst,
}
use fix_protocol.Core.Types.{ErrorCode, Result, ok, err, Done, error_message}
use fix_protocol.Core.RejectReason.{other}
use fix_protocol.Core.Message.{Message, msg_type, seq_num}
use fix_protocol.Dictionary.Definitions.{MessageDef}
use fix_protocol.Dictionary.Tables.{DataDictionary, find_message, validate}
use fix_protocol.Dictionary.Validation.{Verdict, validate-Verdict}
use fix_protocol.Session.{Session, Env, Dictionary, delivered, active, guarded, same_state}
use fix_protocol.Session.Sending.{send_reject, send_business_reject}
use fix_protocol.Session.Inbound.{violation, deliver_or_reject, process_app}

abbrev pub is_defined : Option MessageDef → Bool
is_defined none = false
is_defined (some _) = true

-- The text of an error, if there is one.
abbrev pub failure : Result Done → Option Bytes
failure (ok _) = none
failure (err e) = some (error_message e)

-- What a session uses of a data dictionary.
unfoldable pub session_dictionary : DataDictionary → Dictionary
session_dictionary d = record {
  defines = λ type. is_defined (find_message type d);
  validate = λ m. failure (validate d m);
}

-- The message is delivered, since it conforms or its type is not defined, or it is rejected with the
-- text of what is wrong with it.
pub data Processed {S : Type 0} (env : Env S) (d : DataDictionary) (msg : Message) (s : Session S)
    : Session S → Type 0 where
  unknown :
      find_message (msg_type msg) d ≡ none → Processed env d msg s (guarded env (delivered msg) s)
  conforms : Verdict d msg (ok tt) → Processed env d msg s (guarded env (delivered msg) s)
  rejects :
      (e : ErrorCode)
      → find_message (msg_type msg) d ≢ none
      → Verdict d msg (err e)
      → Processed env d msg s
          (send_business_reject env (seq_num msg) 0 (msg_type msg) (error_message e) s)

module _ {S : Type 0} (env : Env S) (d : DataDictionary) (msg : Message) (s : Session S) where
  verdict-Processed :
      (r : Result Done)
      → find_message (msg_type msg) d ≢ none
      → Verdict d msg r
      → Processed env d msg s (deliver_or_reject env msg (failure r) s)
  verdict-Processed (ok tt) known v = conforms v
  verdict-Processed (err e) known v = rejects e known v

  defined-Processed :
      (o : Option MessageDef)
      → find_message (msg_type msg) d ≡ o
      → Processed env d msg s
          (deliver_or_reject env msg (if is_defined o then failure (validate d msg) else none) s)
  defined-Processed none e = unknown e
  defined-Processed (some def) e =
      verdict-Processed (validate d msg) (λ n. let x : ⊥ = cc in x) (validate-Verdict d msg)

  -- In an active session that validates against a data dictionary, an application message reaches
  -- the application exactly if its type is not defined or it conforms; otherwise the peer is sent a
  -- business reject with the text of what is wrong with it.
  pub process_app-Processed :
      s.state ≡ active
      → s.cfg.validate_fields ≡ true
      → env.dictionary ≡ some (session_dictionary d)
      → Processed env d msg s (process_app env msg s)
  unfolding process_app session_dictionary
  process_app-Processed is_active checks uses =
      let refused =
        send_reject env (seq_num msg) other (msg_type msg) 0 (codes "Session not active") s in
      let handed = λ (why : Option Bytes). deliver_or_reject env msg why s in
      let runs : process_app env msg s ≡ handed (violation true (some (session_dictionary d)) msg) =
        ap
          (λ st.
            if not (same_state st active)
            then refused
            else handed (violation s.cfg.validate_fields env.dictionary msg))
          is_active
        ∙ ap (λ b. handed (violation b env.dictionary msg)) checks
        ∙ ap (λ o. handed (violation true o msg)) uses in
      subst (Processed env d msg s) (sym runs)
        (defined-Processed (find_message (msg_type msg) d) refl)
