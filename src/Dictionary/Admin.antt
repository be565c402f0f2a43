-- ===== src/Dictionary/Admin.antt =====
-- src/dictionary/data_dictionary.cpp against src/session/session.cpp: which messages are of the
-- session layer.
use fix_protocol.Prelude.{
  ◌≡◌, refl, ◌∙◌, sym, ap, Bool, true, false, ◌&&◌, not, some, [], ◌∷◌, Bytes, equal, equal_iff,
  arith,
}
use fix_protocol.Core.Types.{FixVersion, fix_4_2, fix_4_4, fix_5_0_sp2, fixt_1_1}
use fix_protocol.Dictionary.Definitions.{MessageDef}
use fix_protocol.Dictionary.Tables.{
  Table, DataDictionary, Orders, lookup, put, find_message, rebuild_name_index,
}
use fix_protocol.Dictionary.Builtin.{
  add_messages, load_builtin, load_builtin_fields, load_builtin_messages, load_builtin_messages_42,
  load_builtin_messages_44, load_builtin_messages_50sp2,
}
use fix_protocol.Session.Resend.{is_admin_msg}
use fix_protocol.Dictionary.Builtin.Messages.{messages_42}

same_bit : Bool → Bool → Bool
same_bit true b = b
same_bit false b = not b

-- Every message of the table is an administrative one just if a session takes it for one, and is
-- under its own type.
agrees : Table MessageDef → Bool
agrees [] = true
agrees ((k, d) ∷ t) = same_bit d.is_admin (is_admin_msg k) && agrees t

same_bit-eq : (a b : Bool) → same_bit a b ≡ true → a ≡ b
unfolding same_bit
same_bit-eq true true h = refl
same_bit-eq true false h = cc
same_bit-eq false true h = cc
same_bit-eq false false h = refl

agrees-lookup :
    (t : Table MessageDef) (type : Bytes) (d : MessageDef)
    → agrees t ≡ true
    → lookup type t ≡ some d
    → d.is_admin ≡ is_admin_msg type
unfolding agrees lookup
agrees-lookup [] type d h e = cc
agrees-lookup ((k, x) ∷ t) type d h e =
    ground
      (arith, agrees-lookup t type d, same_bit-eq x.is_admin (is_admin_msg k), equal_iff k type)

builtin : Table MessageDef
builtin = add_messages messages_42 []

builtin-agrees : agrees builtin ≡ true
unfolding agrees builtin add_messages put equal is_admin_msg same_bit
builtin-agrees = refl

messages-builtin :
    (o : Orders) (v : FixVersion) (d : DataDictionary)
    → d.messages_by_type ≡ []
    → (load_builtin_messages o v d).messages_by_type ≡ builtin
unfolding load_builtin_messages load_builtin_messages_42 load_builtin_messages_44
    load_builtin_messages_50sp2 rebuild_name_index builtin
messages-builtin o fix_4_2 d e = ap (add_messages messages_42) e
messages-builtin o fix_4_4 d e = ap (add_messages messages_42) e
messages-builtin o fix_5_0_sp2 d e = ap (add_messages messages_42) e
messages-builtin o fixt_1_1 d e = ap (add_messages messages_42) e
messages-builtin o _ d e = ap (add_messages messages_42) e

-- In the built-in dictionary of every version, a message that is defined is marked as an
-- administrative one exactly if the replay of a session takes its type for one.
pub load_builtin-admin :
    (o : Orders) (v : FixVersion) (d : DataDictionary) (type : Bytes) (def : MessageDef)
    → find_message type (load_builtin o v d) ≡ some def
    → def.is_admin ≡ is_admin_msg type
unfolding find_message load_builtin load_builtin_fields rebuild_name_index
load_builtin-admin o v d type def h =
    agrees-lookup builtin type def builtin-agrees
      (ap (lookup type) (sym (messages-builtin o v _ refl)) ∙ h)
