-- ===== src/Dictionary/Tables.antt =====
-- src/dictionary/data_dictionary.cpp: the tables of a dictionary, lookup, registration, validation.
use fix_protocol.Prelude.{
  ℕ, Bool, true, false, Option, none, some, List, [], ◌∷◌, Bytes, codes, equal, if◌then◌else◌, ◌==◌,
}
use fix_protocol.Core.Types.{
  FixVersion-discrete, Result, ok, err, Done, FixVersion, fix_4_2, fix_4_3, fix_4_4, fix_5_0,
  fix_5_0_sp1, fix_5_0_sp2, unknown, unknown_message, missing_field, invalid_field,
}
use fix_protocol.Core.Message.{Field, Message, has, msg_type}
use fix_protocol.Store.SortedMap.{Slot, assign}
use fix_protocol.Dictionary.Definitions.{FieldDef, MessageDef, validate_value}

-- A table by texts.
abbrev pub Table : Type 0 → Type 0
Table V = List (Bytes × V)

unfoldable pub lookup : {V : Type 0} → Bytes → Table V → Option V
lookup k [] = none
lookup k ((j, v) ∷ t) = if equal j k then some v else lookup k t

-- `t[k] = v`.
unfoldable pub put : {V : Type 0} → Bytes → V → Table V → Table V
put k v [] = (k, v) ∷ []
put k v ((j, w) ∷ t) = if equal j k then (k, v) ∷ t else (j, w) ∷ put k v t

-- The value under a number.
unfoldable pub lookup_tag : {V : Type 0} → ℕ → List (Slot V) → Option V
lookup_tag k [] = none
lookup_tag k (e ∷ es) = if e.seq == k then some e.value else lookup_tag k es

-- A pointer into a table is the key of what it points to.
pub record DataDictionary : Type 0 where
  pub version : FixVersion
  pub version_string : Bytes
  pub fields_by_tag : List (Slot FieldDef)
  pub fields_by_name : Table ℕ
  pub messages_by_type : Table MessageDef
  pub messages_by_name : Table Bytes

-- The default constructor.
abbrev pub new_dictionary : DataDictionary
new_dictionary = record {
  version = unknown;
  version_string = [];
  fields_by_tag = [];
  fields_by_name = [];
  messages_by_type = [];
  messages_by_name = [];
}

-- The orders in which the loops over the two unordered maps go, which the language leaves open.
pub record Orders : Type 0 where
  pub fields : List (Slot FieldDef) → List (Slot FieldDef)
  pub messages : Table MessageDef → Table MessageDef

unfoldable pub name_fields : List (Slot FieldDef) → Table ℕ → Table ℕ
name_fields [] t = t
name_fields (e ∷ es) t = name_fields es (put e.value.name e.seq t)

unfoldable pub name_messages : Table MessageDef → Table Bytes → Table Bytes
name_messages [] t = t
name_messages ((k, d) ∷ ms) t = name_messages ms (put d.name k t)

unfoldable pub rebuild_name_index : Orders → DataDictionary → DataDictionary
rebuild_name_index o d = record d {
  fields_by_name = name_fields (o.fields d.fields_by_tag) [];
  messages_by_name = name_messages (o.messages d.messages_by_type) [];
}

unfoldable pub find_field : ℕ → DataDictionary → Option FieldDef
unfolding lookup_tag
find_field tag d = lookup_tag tag d.fields_by_tag

abbrev pub pointed_field : DataDictionary → Option ℕ → Option FieldDef
pointed_field d none = none
pointed_field d (some tag) = lookup_tag tag d.fields_by_tag

unfoldable pub find_field_by_name : Bytes → DataDictionary → Option FieldDef
find_field_by_name name d = pointed_field d (lookup name d.fields_by_name)

unfoldable pub find_message : Bytes → DataDictionary → Option MessageDef
unfolding lookup
find_message type d = lookup type d.messages_by_type

abbrev pub pointed_message : DataDictionary → Option Bytes → Option MessageDef
pointed_message d none = none
pointed_message d (some type) = lookup type d.messages_by_type

unfoldable pub find_message_by_name : Bytes → DataDictionary → Option MessageDef
find_message_by_name name d = pointed_message d (lookup name d.messages_by_name)

unfoldable pub register_field : Orders → FieldDef → DataDictionary → DataDictionary
register_field o def d =
    rebuild_name_index o (record d { fields_by_tag = assign def.tag def d.fields_by_tag })

unfoldable pub register_message : Orders → MessageDef → DataDictionary → DataDictionary
register_message o def d =
    rebuild_name_index o (record d { messages_by_type = put def.msg_type def d.messages_by_type })

-- The loop over the required tags: whether all are there.
unfoldable pub all_required : Message → List ℕ → Bool
all_required m [] = true
all_required m (tag ∷ tags) = if has m tag then all_required m tags else false

abbrev pub accepts : Bytes → Option FieldDef → Bool
accepts value none = true
accepts value (some def) = validate_value def value

-- The loop over the fields: whether each has a valid value, or no definition.
unfoldable pub all_valid : DataDictionary → List Field → Bool
all_valid d [] = true
all_valid d (f ∷ fs) =
    if accepts f.value (lookup_tag f.tag d.fields_by_tag) then all_valid d fs else false

abbrev pub validate_against : DataDictionary → Message → Option MessageDef → Result Done
validate_against d m none = err unknown_message
validate_against d m (some def) =
    if all_required m def.required_tags
    then if all_valid d m.fields then ok tt else err invalid_field
    else err missing_field

unfoldable pub validate : DataDictionary → Message → Result Done
unfolding all_required all_valid
validate d m = validate_against d m (lookup (msg_type m) d.messages_by_type)

-- `load` and `reload` read no file.
abbrev pub load : Bytes → DataDictionary → DataDictionary × Result Done
load path d = (d, ok tt)

abbrev pub reload : Bytes → DataDictionary → DataDictionary × Result Done
reload path d = load path d

-- The dictionaries of the registry, by the version's text.
unfoldable pub registry_get :
    FixVersion → List (FixVersion × DataDictionary) → Option DataDictionary
registry_get v [] = none
registry_get v ((w, d) ∷ ds) = elim (FixVersion-discrete w v) [
  | yes _ ↦ some d
  | no _ ↦ registry_get v ds
]

unfoldable pub registry_set :
    FixVersion
    → DataDictionary
    → List (FixVersion × DataDictionary)
    → List (FixVersion × DataDictionary)
registry_set v d [] = (v, d) ∷ []
registry_set v d ((w, e) ∷ ds) = elim (FixVersion-discrete w v) [
  | yes _ ↦ (v, d) ∷ ds
  | no _ ↦ (w, e) ∷ registry_set v d ds
]

unfoldable pub resolve_appl_ver_id : Bytes → FixVersion
resolve_appl_ver_id id =
    if equal id (codes "4")
    then fix_4_2
    else if equal id (codes "5")
    then fix_4_3
    else if equal id (codes "6")
    then fix_4_4
    else if equal id (codes "7")
    then fix_5_0
    else if equal id (codes "8")
    then fix_5_0_sp1
    else if equal id (codes "9")
    then fix_5_0_sp2
    else unknown
