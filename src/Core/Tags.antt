-- ===== src/Core/Tags.antt =====
-- include/fix/core/constants.hpp: the tag numbers (namespace `tags`).
use fix_protocol.Prelude.{ℕ}

abbrev pub begin_string : ℕ
begin_string = 8

abbrev pub body_length : ℕ
body_length = 9

abbrev pub msg_type : ℕ
msg_type = 35

abbrev pub sender_comp_id : ℕ
sender_comp_id = 49

abbrev pub target_comp_id : ℕ
target_comp_id = 56

abbrev pub msg_seq_num : ℕ
msg_seq_num = 34

abbrev pub sending_time : ℕ
sending_time = 52

abbrev pub orig_sending_time : ℕ
orig_sending_time = 122

abbrev pub poss_dup_flag : ℕ
poss_dup_flag = 43

abbrev pub poss_resend : ℕ
poss_resend = 97

abbrev pub on_behalf_of_comp_id : ℕ
on_behalf_of_comp_id = 115

abbrev pub deliver_to_comp_id : ℕ
deliver_to_comp_id = 128

abbrev pub secure_data_len : ℕ
secure_data_len = 90

abbrev pub secure_data : ℕ
secure_data = 91

abbrev pub sender_sub_id : ℕ
sender_sub_id = 50

abbrev pub sender_location_id : ℕ
sender_location_id = 142

abbrev pub target_sub_id : ℕ
target_sub_id = 57

abbrev pub target_location_id : ℕ
target_location_id = 143

abbrev pub xml_data : ℕ
xml_data = 618

abbrev pub xml_data_len : ℕ
xml_data_len = 212

abbrev pub message_encoding : ℕ
message_encoding = 347

abbrev pub last_msg_seq_num_processed : ℕ
last_msg_seq_num_processed = 369

abbrev pub no_hops : ℕ
no_hops = 627

abbrev pub appl_ver_id : ℕ
appl_ver_id = 1128

abbrev pub cstm_appl_ver_id : ℕ
cstm_appl_ver_id = 1129

abbrev pub signature_length : ℕ
signature_length = 93

abbrev pub signature : ℕ
signature = 89

abbrev pub check_sum : ℕ
check_sum = 10

abbrev pub encrypt_method : ℕ
encrypt_method = 98

abbrev pub heart_bt_int : ℕ
heart_bt_int = 108

abbrev pub raw_data : ℕ
raw_data = 96

abbrev pub raw_data_length : ℕ
raw_data_length = 95

abbrev pub reset_seq_num_flag : ℕ
reset_seq_num_flag = 141

abbrev pub next_expected_msg_seq_num : ℕ
next_expected_msg_seq_num = 789

abbrev pub test_req_id : ℕ
test_req_id = 112

abbrev pub gap_fill_flag : ℕ
gap_fill_flag = 123

abbrev pub new_seq_no : ℕ
new_seq_no = 36

abbrev pub begin_seq_no : ℕ
begin_seq_no = 7

abbrev pub end_seq_no : ℕ
end_seq_no = 16

abbrev pub ref_seq_num : ℕ
ref_seq_num = 45

abbrev pub ref_msg_type : ℕ
ref_msg_type = 372

abbrev pub session_reject_reason : ℕ
session_reject_reason = 373

abbrev pub text : ℕ
text = 58

abbrev pub ref_tag_id : ℕ
ref_tag_id = 371

abbrev pub username : ℕ
username = 553

abbrev pub password : ℕ
password = 554

abbrev pub default_appl_ver_id : ℕ
default_appl_ver_id = 1137

abbrev pub max_message_size : ℕ
max_message_size = 383

abbrev pub cl_ord_id : ℕ
cl_ord_id = 11

abbrev pub orig_cl_ord_id : ℕ
orig_cl_ord_id = 41

abbrev pub order_id : ℕ
order_id = 37

abbrev pub exec_id : ℕ
exec_id = 17

abbrev pub exec_type : ℕ
exec_type = 150

abbrev pub ord_status : ℕ
ord_status = 39

abbrev pub symbol : ℕ
symbol = 55

abbrev pub side : ℕ
side = 54

abbrev pub order_qty : ℕ
order_qty = 38

abbrev pub ord_type : ℕ
ord_type = 40

abbrev pub price : ℕ
price = 44

abbrev pub stop_px : ℕ
stop_px = 99

abbrev pub time_in_force : ℕ
time_in_force = 59

abbrev pub transact_time : ℕ
transact_time = 60

abbrev pub leaves_qty : ℕ
leaves_qty = 151

abbrev pub cum_qty : ℕ
cum_qty = 14

abbrev pub avg_px : ℕ
avg_px = 6

abbrev pub last_qty : ℕ
last_qty = 32

abbrev pub last_px : ℕ
last_px = 31

abbrev pub ord_rej_reason : ℕ
ord_rej_reason = 103

abbrev pub cxl_rej_reason : ℕ
cxl_rej_reason = 102

abbrev pub cxl_rej_response_to : ℕ
cxl_rej_response_to = 434

abbrev pub exec_inst : ℕ
exec_inst = 18

abbrev pub handl_inst : ℕ
handl_inst = 21

abbrev pub min_qty : ℕ
min_qty = 110

abbrev pub max_floor : ℕ
max_floor = 111

abbrev pub secondary_cl_ord_id : ℕ
secondary_cl_ord_id = 526

abbrev pub account : ℕ
account = 1

abbrev pub security_id : ℕ
security_id = 48

abbrev pub security_id_source : ℕ
security_id_source = 22

abbrev pub security_type : ℕ
security_type = 167

abbrev pub maturity_date : ℕ
maturity_date = 541

abbrev pub put_or_call : ℕ
put_or_call = 201

abbrev pub strike_price : ℕ
strike_price = 202

abbrev pub currency : ℕ
currency = 15

abbrev pub id_source : ℕ
id_source = 22

abbrev pub business_reject_reason : ℕ
business_reject_reason = 380

abbrev pub md_req_id : ℕ
md_req_id = 262

abbrev pub subscription_request_type : ℕ
subscription_request_type = 263

abbrev pub market_depth : ℕ
market_depth = 264

abbrev pub md_update_type : ℕ
md_update_type = 265

abbrev pub aggregated_book : ℕ
aggregated_book = 266

abbrev pub no_md_entry_types : ℕ
no_md_entry_types = 267

abbrev pub no_related_sym : ℕ
no_related_sym = 146

abbrev pub md_entry_type : ℕ
md_entry_type = 269

abbrev pub md_entry_px : ℕ
md_entry_px = 270

abbrev pub md_entry_size : ℕ
md_entry_size = 271

abbrev pub md_entry_date : ℕ
md_entry_date = 272

abbrev pub md_entry_time : ℕ
md_entry_time = 273

abbrev pub md_entry_id : ℕ
md_entry_id = 278

abbrev pub md_update_action : ℕ
md_update_action = 279

abbrev pub no_md_entries : ℕ
no_md_entries = 268

abbrev pub md_req_rej_reason : ℕ
md_req_rej_reason = 281
