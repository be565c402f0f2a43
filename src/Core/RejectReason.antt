-- ===== src/Core/RejectReason.antt =====
-- include/fix/core/constants.hpp: `SessionRejectReason`, the values of tag 373.
use fix_protocol.Prelude.{ℕ}

pub data SessionRejectReason : Type 0 where
  invalid_tag_number required_tag_missing tag_not_defined_for_msg_type : SessionRejectReason
  undefined_tag tag_spec_without_value value_incorrect incorrect_data_format : SessionRejectReason
  decryption_problem signature_problem comp_id_problem : SessionRejectReason
  sending_time_accuracy_problem invalid_msg_type xml_validation_error : SessionRejectReason
  tag_appears_more_than_once tag_out_of_order repeating_group_count_mismatch : SessionRejectReason
  non_data_value_includes_field_delimiter : SessionRejectReason
  invalid_unsupported_application_version other : SessionRejectReason

-- The number of the enumerator.
unfoldable pub reason_code : SessionRejectReason → ℕ
reason_code invalid_tag_number = 0
reason_code required_tag_missing = 1
reason_code tag_not_defined_for_msg_type = 2
reason_code undefined_tag = 3
reason_code tag_spec_without_value = 4
reason_code value_incorrect = 5
reason_code incorrect_data_format = 6
reason_code decryption_problem = 7
reason_code signature_problem = 8
reason_code comp_id_problem = 9
reason_code sending_time_accuracy_problem = 10
reason_code invalid_msg_type = 11
reason_code xml_validation_error = 12
reason_code tag_appears_more_than_once = 13
reason_code tag_out_of_order = 14
reason_code repeating_group_count_mismatch = 15
reason_code non_data_value_includes_field_delimiter = 16
reason_code invalid_unsupported_application_version = 17
reason_code other = 99
