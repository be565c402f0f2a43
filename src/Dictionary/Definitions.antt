-- ===== src/Dictionary/Definitions.antt =====
-- include/fix/dictionary/data_dictionary.hpp: definitions of fields and of messages.
use fix_protocol.Prelude.{
  ℕ, Bool, true, false, ◌||◌, List, [], ◌∷◌, Bytes, codes, equal, if◌then◌else◌,
}
use fix_protocol.Store.SortedMap.{Slot}

pub data FieldType : Type 0 where
  int float char string data_type multiple_value_string boolean utc_timestamp : FieldType
  utc_time_only utc_date_only local_mkt_date month_year day_of_month num_in_group : FieldType
  qty price price_offset amt percentage exchange country currency : FieldType
  seq_num tag_num length_type unknown : FieldType

-- `sv` is one of the names.
unfoldable pub one_of : Bytes → List Bytes → Bool
one_of sv [] = false
one_of sv (n ∷ ns) = equal sv n || one_of sv ns

unfoldable pub parse_field_type : Bytes → FieldType
unfolding one_of
parse_field_type sv =
    if one_of sv
      (codes "INT" ∷ codes "SEQNUM" ∷ codes "NUMINGROUP" ∷ codes "LENGTH" ∷ codes "TAGNUM" ∷ [])
    then int
    else if one_of sv (
        codes "FLOAT"
        ∷ codes "PRICE"
        ∷ codes "AMT"
        ∷ codes "PRICEOFFSET"
        ∷ codes "QTY"
        ∷ codes "PERCENTAGE"
        ∷ [])
    then float
    else if one_of sv (codes "CHAR" ∷ [])
    then char
    else if one_of sv (codes "STRING" ∷ codes "EXCHANGE" ∷ codes "COUNTRY" ∷ codes "CURRENCY" ∷ [])
    then string
    else if one_of sv (codes "DATA" ∷ [])
    then data_type
    else if one_of sv (codes "BOOLEAN" ∷ [])
    then boolean
    else if one_of sv (codes "UTCTIMESTAMP" ∷ [])
    then utc_timestamp
    else if one_of sv (codes "UTCTIMEONLY" ∷ [])
    then utc_time_only
    else if one_of sv (codes "UTCDATEONLY" ∷ [])
    then utc_date_only
    else if one_of sv (codes "LOCALMKTDATE" ∷ [])
    then local_mkt_date
    else if one_of sv (codes "MONTHYEAR" ∷ [])
    then month_year
    else if one_of sv (codes "DAYOFMONTH" ∷ [])
    then day_of_month
    else if one_of sv (codes "MULTIPLEVALUESTRING" ∷ [])
    then multiple_value_string
    else unknown

unfoldable pub field_type_text : FieldType → Bytes
field_type_text int = codes "INT"
field_type_text float = codes "FLOAT"
field_type_text char = codes "CHAR"
field_type_text string = codes "STRING"
field_type_text data_type = codes "DATA"
field_type_text boolean = codes "BOOLEAN"
field_type_text utc_timestamp = codes "UTCTIMESTAMP"
field_type_text num_in_group = codes "NUMINGROUP"
field_type_text qty = codes "QTY"
field_type_text price = codes "PRICE"
field_type_text _ = codes "UNKNOWN"

-- The set of the valid values is the list of them.
pub record FieldDef : Type 0 where
  pub tag : ℕ
  pub name : Bytes
  pub type : FieldType
  pub valid_values : List Bytes
  pub required : Bool

abbrev pub is_enum : FieldDef → Bool
is_enum d = elim d.valid_values [ [] ↦ false | _ ∷ _ ↦ true ]

unfoldable pub validate_value : FieldDef → Bytes → Bool
unfolding one_of
validate_value d v = if is_enum d then one_of v d.valid_values else true

pub record MessageDef : Type 0 where
  pub msg_type : Bytes
  pub name : Bytes
  pub is_admin : Bool
  pub required_tags : List ℕ
  pub optional_tags : List ℕ
  pub groups : List (Slot (List ℕ))
