-- ===== src/Tests/OfDictionary.antt =====
-- src/dictionary/data_dictionary.cpp: the theorems of the dictionary at concrete inputs.
use fix_protocol.Prelude.{
  pos, none, ℕ, ◌≡◌, refl, true, false, some, [], ◌∷◌, Bytes, codes, equal, if◌then◌else◌, ◌==◌,
}
use fix_protocol.Core.Types.{fix_4_4}
use fix_protocol.Core.Message.{Message, Field}
use fix_protocol.Dictionary.Definitions.{FieldDef, MessageDef, char}
use fix_protocol.Dictionary.Tables.{
  DataDictionary, Orders, lookup, put, rebuild_name_index, new_dictionary, find_field, find_message,
  register_field, register_message, validate,
}
use fix_protocol.Dictionary.Builtin.{
  load_builtin, load_builtin_messages, load_builtin_messages_44, load_builtin_messages_42,
  load_builtin_fields, add_messages,
}
use fix_protocol.Dictionary.Builtin.Messages.{message_def}
use fix_protocol.Dictionary.Names.{Visits, IsIndexed, register_field-IsIndexed}
use fix_protocol.Dictionary.Validation.{Verdict, validate-Verdict}
use fix_protocol.Dictionary.Admin.{load_builtin-admin}
use fix_protocol.Parser.Frame.{default_options}
use fix_protocol.Parser.Stream.{init}
use fix_protocol.Serializer.{new_builder}
use fix_protocol.Store.Memory.{MemoryStore, memory_store, new_store}
use fix_protocol.Session.{Session, Env, active}
use fix_protocol.Session.Inbound.{process_app}
use fix_protocol.Session.Conforming.{Processed, session_dictionary, process_app-Processed}
use fix_protocol.Session.Resend.{is_admin_msg}

abbrev field : ℕ → Bytes → Field
field tag value = record { tag = tag; value = value }

-- Both loops go through the elements in the order of the lists.
abbrev in_order : Orders
in_order = record { fields = λ l. l; messages = λ l. l }

in_order-Visits : Visits in_order
in_order-Visits = record { only = λ l e m. m; all = λ l e m. m }

abbrev side : FieldDef
side = record {
  tag = 54;
  name = codes "Side";
  type = char;
  valid_values = codes "1" ∷ codes "2" ∷ [];
  required = false;
}

abbrev order : MessageDef
order = record {
  msg_type = codes "D";
  name = codes "NewOrderSingle";
  is_admin = false;
  required_tags = 54 ∷ 55 ∷ [];
  optional_tags = [];
  groups = [];
}

abbrev small : DataDictionary
small = register_message in_order order new_dictionary

-- An order without a symbol.
abbrev no_symbol : Message
no_symbol = record {
  fields = field 35 (codes "D") ∷ field 54 (codes "3") ∷ [];
  raw = [];
  duplicate_header = false;
}

validate-Verdict_example : Verdict small no_symbol (validate small no_symbol)
validate-Verdict_example = validate-Verdict small no_symbol

register_field-IsIndexed_example :
    ((k : ℕ)
      → find_field k (register_field in_order side new_dictionary)
        ≡ (if side.tag == k then some side else find_field k new_dictionary))
    × IsIndexed (register_field in_order side new_dictionary)
register_field-IsIndexed_example =
    register_field-IsIndexed in_order side new_dictionary in_order-Visits tt

abbrev heartbeat : MessageDef
heartbeat = message_def (codes "0") (codes "Heartbeat") true [] (112 ∷ [])

heartbeat-found :
    find_message (codes "0") (load_builtin in_order fix_4_4 new_dictionary) ≡ some heartbeat
unfolding find_message load_builtin load_builtin_messages load_builtin_messages_44
    load_builtin_messages_42 rebuild_name_index load_builtin_fields add_messages put lookup equal
heartbeat-found = refl

load_builtin-admin_example : heartbeat.is_admin ≡ is_admin_msg (codes "0")
load_builtin-admin_example =
    load_builtin-admin in_order fix_4_4 new_dictionary (codes "0") heartbeat heartbeat-found

-- An established session that validates against the dictionary.
abbrev checking : Env MemoryStore
checking = record {
  stores = memory_store;
  now = 1000000;
  timestamp = codes "20240101-00:00:00.000";
  has_audit_log = true;
  dictionary = some (session_dictionary small);
  throws = λ _. none;
}

abbrev established : Session MemoryStore
established = record {
  cfg = record {
    id = record {
      version = fix_4_4;
      sender_comp_id = codes "US";
      target_comp_id = codes "THEM";
      qualifier = [];
    };
    initiator = true;
    heartbeat_interval = pos 30;
    logon_timeout = pos 10;
    logout_timeout = pos 5;
    reset_on_logon = false;
    validate_fields = true;
    username = [];
    password = [];
    default_appl_ver_id = [];
  };
  store = new_store;
  parser = init default_options;
  builder = new_builder;
  state = active;
  msgs_sent = 0;
  msgs_received = 0;
  errors = 0;
  last_send_time = 0;
  last_recv_time = 0;
  logon_sent_time = 0;
  test_req_sent_time = 0;
  logout_sent_time = 0;
  test_req_counter = 0;
  pending_test_req_id = [];
  test_req_pending = false;
  gap_open = false;
  gap_rr_last = 0;
  gap_rr_attempts = 0;
  resend_corrupt = 0;
  logout_notified = false;
  heartbeat_sec = pos 30;
  effects = [];
}

process_app-Processed_example :
    Processed checking small no_symbol established (process_app checking no_symbol established)
process_app-Processed_example =
    process_app-Processed checking small no_symbol established refl refl refl
