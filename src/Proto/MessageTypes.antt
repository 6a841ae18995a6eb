-- ===== src/Proto/MessageTypes.antt =====
-- proto/const_message_pdu_types.h: the message types.
use zattd.Base.{ℕ, ◌+◌, ◌*◌, ◌%◌}

-- MAKE_INT32(low, high): `low` goes to the upper half.
abbrev pub make_int32 : ℕ → ℕ → ℕ
make_int32 low high = low % 65536 * 65536 + high % 65536

abbrev pub sid_other : ℕ
sid_other = 7

abbrev pub message_heartbeat : ℕ
message_heartbeat = make_int32 sid_other 1

abbrev pub message_stop_receive_packet : ℕ
message_stop_receive_packet = make_int32 sid_other 100

abbrev pub message_validate_request : ℕ
message_validate_request = make_int32 sid_other 110

abbrev pub message_validate_response : ℕ
message_validate_response = make_int32 sid_other 111

abbrev pub message_friend_list_request : ℕ
message_friend_list_request = make_int32 sid_other 122

abbrev pub message_friend_list_response : ℕ
message_friend_list_response = make_int32 sid_other 123

abbrev pub message_remove_session_request : ℕ
message_remove_session_request = make_int32 sid_other 124

abbrev pub message_remove_session_response : ℕ
message_remove_session_response = make_int32 sid_other 125

abbrev pub message_department_request : ℕ
message_department_request = make_int32 sid_other 126

abbrev pub message_department_response : ℕ
message_department_response = make_int32 sid_other 127

abbrev pub message_users_info_request : ℕ
message_users_info_request = make_int32 sid_other 130

abbrev pub message_users_info_response : ℕ
message_users_info_response = make_int32 sid_other 131

abbrev pub message_all_user_request : ℕ
message_all_user_request = make_int32 sid_other 132

abbrev pub message_all_user_response : ℕ
message_all_user_response = make_int32 sid_other 133

abbrev pub message_msg_data : ℕ
message_msg_data = make_int32 sid_other 140

abbrev pub message_unread_msg_count_request : ℕ
message_unread_msg_count_request = make_int32 sid_other 141

abbrev pub message_unread_msg_count_response : ℕ
message_unread_msg_count_response = make_int32 sid_other 142

abbrev pub message_unread_msg_request : ℕ
message_unread_msg_request = make_int32 sid_other 143

abbrev pub message_history_msg_request : ℕ
message_history_msg_request = make_int32 sid_other 144

abbrev pub message_msg_list_response : ℕ
message_msg_list_response = make_int32 sid_other 145

abbrev pub message_msg_read_ack : ℕ
message_msg_read_ack = make_int32 sid_other 146

abbrev pub message_db_query_request : ℕ
message_db_query_request = make_int32 sid_other 170

abbrev pub message_db_query_response : ℕ
message_db_query_response = make_int32 sid_other 171

abbrev pub message_db_write_response : ℕ
message_db_write_response = make_int32 sid_other 180

abbrev pub message_user_action_log : ℕ
message_user_action_log = make_int32 sid_other 190

abbrev pub message_group_list_request : ℕ
message_group_list_request = make_int32 sid_other 300

abbrev pub message_group_list_response : ℕ
message_group_list_response = make_int32 sid_other 301

abbrev pub message_group_user_list_request : ℕ
message_group_user_list_request = make_int32 sid_other 302

abbrev pub message_group_user_list_response : ℕ
message_group_user_list_response = make_int32 sid_other 303

abbrev pub message_group_unread_msg_count_request : ℕ
message_group_unread_msg_count_request = make_int32 sid_other 304

abbrev pub message_group_unread_msg_count_response : ℕ
message_group_unread_msg_count_response = make_int32 sid_other 305

abbrev pub message_group_unread_msg_request : ℕ
message_group_unread_msg_request = make_int32 sid_other 306

abbrev pub message_group_history_msg_request : ℕ
message_group_history_msg_request = make_int32 sid_other 307

abbrev pub message_group_msg_list_response : ℕ
message_group_msg_list_response = make_int32 sid_other 308

abbrev pub message_group_msg_read_ack : ℕ
message_group_msg_read_ack = make_int32 sid_other 309

abbrev pub message_group_create_tmp_group_request : ℕ
message_group_create_tmp_group_request = make_int32 sid_other 310

abbrev pub message_group_create_tmp_group_response : ℕ
message_group_create_tmp_group_response = make_int32 sid_other 311

abbrev pub message_group_change_member_request : ℕ
message_group_change_member_request = make_int32 sid_other 312

abbrev pub message_group_change_member_response : ℕ
message_group_change_member_response = make_int32 sid_other 313

abbrev pub message_group_dialog_list_request : ℕ
message_group_dialog_list_request = make_int32 sid_other 314

abbrev pub message_group_dialog_list_response : ℕ
message_group_dialog_list_response = make_int32 sid_other 315

abbrev pub message_group_create_normal_group_notify : ℕ
message_group_create_normal_group_notify = make_int32 sid_other 316

abbrev pub message_group_change_member_notify : ℕ
message_group_change_member_notify = make_int32 sid_other 317

abbrev pub message_file_has_offline_req : ℕ
message_file_has_offline_req = make_int32 sid_other 561

abbrev pub message_file_has_offline_res : ℕ
message_file_has_offline_res = make_int32 sid_other 562

abbrev pub message_file_add_offline_req : ℕ
message_file_add_offline_req = make_int32 sid_other 563

abbrev pub message_file_del_offline_req : ℕ
message_file_del_offline_req = make_int32 sid_other 564
