-- ===== src/Dictionary/Builtin.antt =====
-- src/dictionary/data_dictionary.cpp: the built-in dictionaries.
pub mod Fields
pub mod Messages
use fix_protocol.Prelude.{List, [], ◌∷◌, ◌++◌, Bytes, codes}
use fix_protocol.Core.Types.{
  FixVersion, fix_4_0, fix_4_1, fix_4_2, fix_4_3, fix_4_4, fix_5_0, fix_5_0_sp1, fix_5_0_sp2,
  fixt_1_1, unknown, version_text,
}
use fix_protocol.Core.Tags
use fix_protocol.Store.SortedMap.{Slot, assign}
use fix_protocol.Dictionary.Definitions.{FieldDef, MessageDef, string}
use fix_protocol.Dictionary.Tables.{DataDictionary, Orders, put, rebuild_name_index}
use fix_protocol.Dictionary.Builtin.Fields.{
  field_def, values, header_fields, session_fields, order_fields, market_data_fields,
}
use fix_protocol.Dictionary.Builtin.Messages.{messages_42}

-- The calls of the lambda `add`, one after another.
unfoldable pub add_fields : List FieldDef → List (Slot FieldDef) → List (Slot FieldDef)
add_fields [] t = t
add_fields (d ∷ ds) t = add_fields ds (assign d.tag d t)

unfoldable pub add_messages :
    List MessageDef → List (Bytes × MessageDef) → List (Bytes × MessageDef)
add_messages [] t = t
add_messages (d ∷ ds) t = add_messages ds (put d.msg_type d t)

abbrev pub builtin_fields : List FieldDef
builtin_fields = header_fields ++ (session_fields ++ (order_fields ++ market_data_fields))

unfoldable pub load_builtin_fields : Orders → DataDictionary → DataDictionary
load_builtin_fields o d =
    rebuild_name_index o (record d { fields_by_tag = add_fields builtin_fields d.fields_by_tag })

unfoldable pub load_builtin_messages_42 : Orders → DataDictionary → DataDictionary
load_builtin_messages_42 o d =
    rebuild_name_index o
      (record d { messages_by_type = add_messages messages_42 d.messages_by_type })

unfoldable pub load_builtin_messages_44 : Orders → DataDictionary → DataDictionary
load_builtin_messages_44 o d = record (load_builtin_messages_42 o d) {
  version_string = codes "FIX.4.4";
  version = fix_4_4;
}

abbrev pub appl_ver_id : FieldDef
appl_ver_id = field_def Tags.appl_ver_id (codes "ApplVerID") string (values "0123456789")

unfoldable pub load_builtin_messages_50sp2 : Orders → DataDictionary → DataDictionary
load_builtin_messages_50sp2 o d =
    let e = load_builtin_messages_44 o d in
    rebuild_name_index o (record e {
      version_string = codes "FIX.5.0SP2";
      version = fix_5_0_sp2;
      fields_by_tag = assign Tags.appl_ver_id appl_ver_id e.fields_by_tag;
    })

-- The `switch` of `load_builtin`.
unfoldable pub load_builtin_messages : Orders → FixVersion → DataDictionary → DataDictionary
load_builtin_messages o fix_4_2 d = load_builtin_messages_42 o d
load_builtin_messages o fix_4_4 d = load_builtin_messages_44 o d
load_builtin_messages o fix_5_0_sp2 d = load_builtin_messages_50sp2 o d
load_builtin_messages o fixt_1_1 d = load_builtin_messages_50sp2 o d
load_builtin_messages o _ d = load_builtin_messages_44 o d

unfoldable pub load_builtin : Orders → FixVersion → DataDictionary → DataDictionary
load_builtin o v d =
    record (load_builtin_messages o v (
      load_builtin_fields o (record {
        version = v;
        version_string = version_text v;
        fields_by_tag = [];
        fields_by_name = [];
        messages_by_type = [];
        messages_by_name = [];
      }))) { version_string = version_text v; version = v }
