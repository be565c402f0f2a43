-- ===== src/Core/MsgTypes.antt =====
-- include/fix/core/constants.hpp: the values of tag 35 (namespace `msg_types`).
use fix_protocol.Prelude.{Bytes, codes}

abbrev pub heartbeat : Bytes
heartbeat = codes "0"

abbrev pub test_request : Bytes
test_request = codes "1"

abbrev pub resend_request : Bytes
resend_request = codes "2"

abbrev pub reject : Bytes
reject = codes "3"

abbrev pub sequence_reset : Bytes
sequence_reset = codes "4"

abbrev pub logout : Bytes
logout = codes "5"

abbrev pub ioi : Bytes
ioi = codes "6"

abbrev pub advertisement : Bytes
advertisement = codes "7"

abbrev pub execution_report : Bytes
execution_report = codes "8"

abbrev pub order_cancel_reject : Bytes
order_cancel_reject = codes "9"

abbrev pub logon : Bytes
logon = codes "A"

abbrev pub news : Bytes
news = codes "B"

abbrev pub email : Bytes
email = codes "C"

abbrev pub new_order_single : Bytes
new_order_single = codes "D"

abbrev pub new_order_list : Bytes
new_order_list = codes "E"

abbrev pub order_cancel_request : Bytes
order_cancel_request = codes "F"

abbrev pub order_cancel_replace_request : Bytes
order_cancel_replace_request = codes "G"

abbrev pub order_status_request : Bytes
order_status_request = codes "H"

abbrev pub business_message_reject : Bytes
business_message_reject = codes "j"

abbrev pub market_data_request : Bytes
market_data_request = codes "V"

abbrev pub market_data_snapshot_full_refresh : Bytes
market_data_snapshot_full_refresh = codes "W"

abbrev pub market_data_incremental_refresh : Bytes
market_data_incremental_refresh = codes "X"

abbrev pub market_data_request_reject : Bytes
market_data_request_reject = codes "Y"

abbrev pub security_definition_request : Bytes
security_definition_request = codes "c"

abbrev pub security_definition : Bytes
security_definition = codes "d"

abbrev pub trading_session_status_request : Bytes
trading_session_status_request = codes "g"

abbrev pub trading_session_status : Bytes
trading_session_status = codes "h"

abbrev pub mass_quote : Bytes
mass_quote = codes "i"

abbrev pub quote : Bytes
quote = codes "S"

abbrev pub quote_request : Bytes
quote_request = codes "R"
