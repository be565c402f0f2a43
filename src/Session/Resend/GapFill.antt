-- ===== src/Session/Resend/GapFill.antt =====
-- src/session/session.cpp, `handle_resend_request`: a gap-fill can be serialized.
use fix_protocol.Prelude.{
  ℕ, ◌≡◌, refl, Bool, true, false, ◌||◌, Bytes, arith, if◌then◌else◌, to_int64, sym, subst,
}
use fix_protocol.Prelude.Decimal.{int_to_decimal}
use fix_protocol.Core.Types.{
  Result, ok, err, version_text, ErrorCode, invalid_field, FixVersion, fix_4_0, fix_4_1, fix_4_2,
  fix_4_3, fix_4_4, fix_5_0, fix_5_0_sp1, fix_5_0_sp2, fixt_1_1, unknown,
}
use fix_protocol.Core.Message.{msg_type, has_invalid_wire_chars}
use fix_protocol.Serializer.{Builder, Envelope, field_of, is_skipped, try_serialize}
use fix_protocol.Serializer.Render.{emitted, kept, dirty, try_serialize-emitted}
use fix_protocol.Session.Resend.Duplicate.{filler, filler_to, int_to_decimal-clean}

abbrev pub Succeeds : Result Bytes → Type 0
Succeeds (ok _) = Unit
Succeeds (err _) = ⊥

pub version_text-clean : (v : FixVersion) → has_invalid_wire_chars (version_text v) ≡ false
unfolding version_text has_invalid_wire_chars
version_text-clean fix_4_0 = refl
version_text-clean fix_4_1 = refl
version_text-clean fix_4_2 = refl
version_text-clean fix_4_3 = refl
version_text-clean fix_4_4 = refl
version_text-clean fix_5_0 = refl
version_text-clean fix_5_0_sp1 = refl
version_text-clean fix_5_0_sp2 = refl
version_text-clean fixt_1_1 = refl
version_text-clean unknown = refl

-- The envelope's texts can stand on the wire.
pub record IsClean (e : Envelope) : Type 0 where
  pub sender : has_invalid_wire_chars e.sender ≡ false
  pub target : has_invalid_wire_chars e.target ≡ false
  pub time : has_invalid_wire_chars e.sending_time ≡ false

filler-clean :
    (digits : Bytes) (e : Envelope)
    → has_invalid_wire_chars digits ≡ false
    → IsClean e
    → dirty (emitted (filler digits) e) ≡ false
unfolding filler emitted msg_type field_of kept is_skipped dirty has_invalid_wire_chars
filler-clean digits e h c =
    ground (arith, h, c.sender, c.target, c.time, int_to_decimal-clean (to_int64 e.seq_num))

succeeds : (b : Bool) (e : ErrorCode) (w : Bytes) → b ≡ false → Succeeds (if b then err e else ok w)
succeeds true e w h = absurd (let x : ⊥ = cc in x)
succeeds false e w h = tt

-- A gap-fill is serialized whatever the number, if the envelope's texts can stand on the wire.
pub filler-Succeeds :
    (n : ℕ) (e : Envelope) (p : Builder)
    → has_invalid_wire_chars e.version ≡ false
    → IsClean e
    → Succeeds (try_serialize (filler_to n) e p).1
filler-Succeeds n e p v c =
    let m = filler_to n in
    let clean =
      filler-clean (int_to_decimal (to_int64 n)) e (int_to_decimal-clean (to_int64 n)) c in
    subst Succeeds (sym (try_serialize-emitted m e p)) (
      succeeds (has_invalid_wire_chars e.version || dirty (emitted m e)) invalid_field _
        (ground (arith, v, clean)))
