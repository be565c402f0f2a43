-- ===== src/Dictionary/Builtin/Fields.antt =====
-- src/dictionary/data_dictionary.cpp, `load_builtin_fields`: the fields that it adds.
use fix_protocol.Prelude.{ℕ, false, List, [], ◌∷◌, Bytes, codes, map}
use Prim.Native.String.{String}
use fix_protocol.Core.Tags
use fix_protocol.Dictionary.Definitions.{
  FieldType, int, char, string, boolean, utc_timestamp, num_in_group, qty, price, currency,
  FieldDef,
}

-- A definition as the lambda `add` makes it.
abbrev pub field_def : ℕ → Bytes → FieldType → List Bytes → FieldDef
field_def tag name type valid = record {
  tag = tag;
  name = name;
  type = type;
  valid_values = valid;
  required = false;
}

-- Values of one character each.
abbrev pub values : String → List Bytes
values s = map (λ c. c ∷ []) (codes s)

abbrev pub header_fields : List FieldDef
header_fields =
    field_def Tags.begin_string (codes "BeginString") string []
    ∷ field_def Tags.body_length (codes "BodyLength") int []
    ∷ field_def Tags.msg_type (codes "MsgType") string []
    ∷ field_def Tags.msg_seq_num (codes "MsgSeqNum") int []
    ∷ field_def Tags.sender_comp_id (codes "SenderCompID") string []
    ∷ field_def Tags.target_comp_id (codes "TargetCompID") string []
    ∷ field_def Tags.sending_time (codes "SendingTime") utc_timestamp []
    ∷ field_def Tags.check_sum (codes "CheckSum") string []
    ∷ field_def Tags.poss_dup_flag (codes "PossDupFlag") boolean (values "YN")
    ∷ field_def Tags.poss_resend (codes "PossResend") boolean (values "YN")
    ∷ field_def Tags.orig_sending_time (codes "OrigSendingTime") utc_timestamp []
    ∷ []

abbrev pub session_fields : List FieldDef
session_fields =
    field_def Tags.encrypt_method (codes "EncryptMethod") int (values "0123456")
    ∷ field_def Tags.heart_bt_int (codes "HeartBtInt") int []
    ∷ field_def Tags.test_req_id (codes "TestReqID") string []
    ∷ field_def Tags.gap_fill_flag (codes "GapFillFlag") boolean (values "YN")
    ∷ field_def Tags.new_seq_no (codes "NewSeqNo") int []
    ∷ field_def Tags.begin_seq_no (codes "BeginSeqNo") int []
    ∷ field_def Tags.end_seq_no (codes "EndSeqNo") int []
    ∷ field_def Tags.ref_seq_num (codes "RefSeqNum") int []
    ∷ field_def Tags.ref_msg_type (codes "RefMsgType") string []
    ∷ field_def Tags.session_reject_reason (codes "SessionRejectReason") int []
    ∷ field_def Tags.text (codes "Text") string []
    ∷ field_def Tags.ref_tag_id (codes "RefTagID") int []
    ∷ field_def Tags.reset_seq_num_flag (codes "ResetSeqNumFlag") boolean (values "YN")
    ∷ field_def Tags.username (codes "Username") string []
    ∷ field_def Tags.password (codes "Password") string []
    ∷ field_def Tags.default_appl_ver_id (codes "DefaultApplVerID") string []
    ∷ field_def Tags.appl_ver_id (codes "ApplVerID") string []
    ∷ []

abbrev pub order_fields : List FieldDef
order_fields =
    field_def Tags.cl_ord_id (codes "ClOrdID") string []
    ∷ field_def Tags.orig_cl_ord_id (codes "OrigClOrdID") string []
    ∷ field_def Tags.order_id (codes "OrderID") string []
    ∷ field_def Tags.exec_id (codes "ExecID") string []
    ∷ field_def Tags.exec_type (codes "ExecType") char (values "0123456789ABCDEF")
    ∷ field_def Tags.ord_status (codes "OrdStatus") char (values "0123456789ABC")
    ∷ field_def Tags.symbol (codes "Symbol") string []
    ∷ field_def Tags.side (codes "Side") char (values "123456789")
    ∷ field_def Tags.order_qty (codes "OrderQty") qty []
    ∷ field_def Tags.ord_type (codes "OrdType") char (values "123456789ABCD")
    ∷ field_def Tags.price (codes "Price") price []
    ∷ field_def Tags.stop_px (codes "StopPx") price []
    ∷ field_def Tags.time_in_force (codes "TimeInForce") char (values "0123456789")
    ∷ field_def Tags.transact_time (codes "TransactTime") utc_timestamp []
    ∷ field_def Tags.leaves_qty (codes "LeavesQty") qty []
    ∷ field_def Tags.cum_qty (codes "CumQty") qty []
    ∷ field_def Tags.avg_px (codes "AvgPx") price []
    ∷ field_def Tags.last_qty (codes "LastQty") qty []
    ∷ field_def Tags.last_px (codes "LastPx") price []
    ∷ field_def Tags.ord_rej_reason (codes "OrdRejReason") int []
    ∷ field_def Tags.cxl_rej_reason (codes "CxlRejReason") int []
    ∷ field_def Tags.cxl_rej_response_to (codes "CxlRejResponseTo") char (values "123")
    ∷ field_def Tags.account (codes "Account") string []
    ∷ field_def Tags.security_id (codes "SecurityID") string []
    ∷ field_def Tags.security_id_source (codes "SecurityIDSource") string []
    ∷ field_def Tags.currency (codes "Currency") currency []
    ∷ []

abbrev pub market_data_fields : List FieldDef
market_data_fields =
    field_def Tags.md_req_id (codes "MDReqID") string []
    ∷ field_def Tags.subscription_request_type (codes "SubscriptionRequestType") char (values "012")
    ∷ field_def Tags.market_depth (codes "MarketDepth") int []
    ∷ field_def Tags.md_update_type (codes "MDUpdateType") int (values "01")
    ∷ field_def Tags.no_md_entry_types (codes "NoMDEntryTypes") num_in_group []
    ∷ field_def Tags.no_related_sym (codes "NoRelatedSym") num_in_group []
    ∷ field_def Tags.md_entry_type (codes "MDEntryType") char (values "0123456789ABCDEFGHIJ")
    ∷ field_def Tags.md_entry_px (codes "MDEntryPx") price []
    ∷ field_def Tags.md_entry_size (codes "MDEntrySize") qty []
    ∷ field_def Tags.md_entry_id (codes "MDEntryID") string []
    ∷ field_def Tags.md_update_action (codes "MDUpdateAction") char (values "012")
    ∷ field_def Tags.no_md_entries (codes "NoMDEntries") num_in_group []
    ∷ []
