-- ===== src/Dictionary/Builtin/Messages.antt =====
-- src/dictionary/data_dictionary.cpp, `load_builtin_messages_42`: the messages that it adds.
use fix_protocol.Prelude.{ℕ, Bool, true, false, List, [], ◌∷◌, Bytes, codes}
use fix_protocol.Core.Tags
use fix_protocol.Core.MsgTypes
use fix_protocol.Dictionary.Definitions.{MessageDef}

-- A definition as the lambda `add` makes it.
abbrev pub message_def : Bytes → Bytes → Bool → List ℕ → List ℕ → MessageDef
message_def type name admin req opt = record {
  msg_type = type;
  name = name;
  is_admin = admin;
  required_tags = req;
  optional_tags = opt;
  groups = [];
}

abbrev pub messages_42 : List MessageDef
messages_42 =
    message_def MsgTypes.heartbeat (codes "Heartbeat") true [] (Tags.test_req_id ∷ [])
    ∷ message_def MsgTypes.test_request (codes "TestRequest") true (Tags.test_req_id ∷ []) []
    ∷ message_def MsgTypes.resend_request (codes "ResendRequest") true
        (Tags.begin_seq_no ∷ Tags.end_seq_no ∷ []) []
    ∷ message_def MsgTypes.reject (codes "Reject") true (Tags.ref_seq_num ∷ [])
        (Tags.ref_tag_id ∷ Tags.ref_msg_type ∷ Tags.session_reject_reason ∷ Tags.text ∷ [])
    ∷ message_def MsgTypes.sequence_reset (codes "SequenceReset") true (Tags.new_seq_no ∷ [])
        (Tags.gap_fill_flag ∷ [])
    ∷ message_def MsgTypes.logout (codes "Logout") true [] (Tags.text ∷ [])
    ∷ message_def MsgTypes.logon (codes "Logon") true (Tags.encrypt_method ∷ Tags.heart_bt_int ∷ [])
        (Tags.raw_data_length ∷ Tags.raw_data ∷ Tags.reset_seq_num_flag ∷ Tags.max_message_size
          ∷ Tags.username ∷ Tags.password ∷ [])
    ∷ message_def MsgTypes.new_order_single (codes "NewOrderSingle") false
        (Tags.cl_ord_id ∷ Tags.handl_inst ∷ Tags.symbol ∷ Tags.side ∷ Tags.transact_time
          ∷ Tags.order_qty ∷ Tags.ord_type ∷ [])
        (Tags.account ∷ Tags.security_id ∷ Tags.security_id_source ∷ Tags.ord_type ∷ Tags.price
          ∷ Tags.stop_px ∷ Tags.currency ∷ Tags.time_in_force ∷ Tags.exec_inst ∷ Tags.text ∷ [])
    ∷ message_def MsgTypes.execution_report (codes "ExecutionReport") false
        (Tags.order_id ∷ Tags.exec_id ∷ Tags.exec_type ∷ Tags.ord_status ∷ Tags.symbol ∷ Tags.side
          ∷ Tags.leaves_qty ∷ Tags.cum_qty ∷ Tags.avg_px ∷ [])
        (Tags.cl_ord_id ∷ Tags.orig_cl_ord_id ∷ Tags.account ∷ Tags.last_qty ∷ Tags.last_px
          ∷ Tags.ord_rej_reason ∷ Tags.text ∷ [])
    ∷ message_def MsgTypes.order_cancel_request (codes "OrderCancelRequest") false
        (Tags.orig_cl_ord_id ∷ Tags.cl_ord_id ∷ Tags.symbol ∷ Tags.side ∷ Tags.transact_time ∷ [])
        (Tags.account ∷ Tags.text ∷ [])
    ∷ message_def MsgTypes.order_cancel_replace_request (codes "OrderCancelReplaceRequest") false
        (Tags.orig_cl_ord_id ∷ Tags.cl_ord_id ∷ Tags.handl_inst ∷ Tags.symbol ∷ Tags.side
          ∷ Tags.transact_time ∷ Tags.order_qty ∷ Tags.ord_type ∷ [])
        (Tags.account ∷ Tags.price ∷ Tags.stop_px ∷ Tags.text ∷ [])
    ∷ message_def MsgTypes.market_data_request (codes "MarketDataRequest") false
        (Tags.md_req_id ∷ Tags.subscription_request_type ∷ Tags.market_depth
          ∷ Tags.no_md_entry_types ∷ Tags.no_related_sym ∷ [])
        (Tags.md_update_type ∷ Tags.aggregated_book ∷ [])
    ∷ message_def MsgTypes.market_data_snapshot_full_refresh (codes "MarketDataSnapshotFullRefresh")
        false (Tags.symbol ∷ Tags.no_md_entries ∷ []) (Tags.md_req_id ∷ [])
    ∷ message_def MsgTypes.market_data_incremental_refresh (codes "MarketDataIncrementalRefresh")
        false (Tags.no_md_entries ∷ []) (Tags.md_req_id ∷ [])
    ∷ message_def MsgTypes.business_message_reject (codes "BusinessMessageReject") false
        (Tags.ref_msg_type ∷ Tags.business_reject_reason ∷ []) (Tags.ref_seq_num ∷ Tags.text ∷ [])
    ∷ []
