-- ===== src/Proto/Message.antt =====
-- The message classes of proto/ together, and the two methods that every one inherits.
use zattd.Base.{ℕ, ◌≡◌}
use zattd.Wire.Stream.{ByteStream}
use zattd.Proto.BasePdu.{AttachDataType, attach_db, attach_null, PduClass}
use zattd.Proto.Codec.{Arrives, Codec, Fitting}
use zattd.Proto.AllUserRequest
use zattd.Proto.AllUserResponse
use zattd.Proto.DbQueryRequest
use zattd.Proto.DbQueryResponse
use zattd.Proto.DbWriteResponse
use zattd.Proto.DepartmentRequest
use zattd.Proto.DepartmentResponse
use zattd.Proto.FileAddOfflineReq
use zattd.Proto.FileDelOfflineReq
use zattd.Proto.FileHasOfflineReq
use zattd.Proto.FileHasOfflineRes
use zattd.Proto.FriendListRequest
use zattd.Proto.FriendListResponse
use zattd.Proto.GroupChangeMemberNotify
use zattd.Proto.GroupChangeMemberRequest
use zattd.Proto.GroupChangeMemberResponse
use zattd.Proto.GroupCreateNormalGroupNotify
use zattd.Proto.GroupCreateTmpGroupRequest
use zattd.Proto.GroupCreateTmpGroupResponse
use zattd.Proto.GroupDialogListRequest
use zattd.Proto.GroupDialogListResponse
use zattd.Proto.GroupHistoryMsgRequest
use zattd.Proto.GroupListRequest
use zattd.Proto.GroupListResponse
use zattd.Proto.GroupMsgListResponse
use zattd.Proto.GroupMsgReadAck
use zattd.Proto.GroupUnreadMsgCountRequest
use zattd.Proto.GroupUnreadMsgCountResponse
use zattd.Proto.GroupUnreadMsgRequest
use zattd.Proto.GroupUserListRequest
use zattd.Proto.GroupUserListResponse
use zattd.Proto.HistoryMsgRequest
use zattd.Proto.MsgData
use zattd.Proto.MsgListResponse
use zattd.Proto.MsgReadAck
use zattd.Proto.RemoveSessionRequest
use zattd.Proto.RemoveSessionResponse
use zattd.Proto.StopReceivePacket
use zattd.Proto.UnreadMsgCountRequest
use zattd.Proto.UnreadMsgCountResponse
use zattd.Proto.UnreadMsgRequest
use zattd.Proto.UserActionLog
use zattd.Proto.UsersInfoRequest
use zattd.Proto.UsersInfoResponse
use zattd.Proto.ValidateRequest

pub data MessageClass : Type 0 where
  all_user_request all_user_response db_query_request : MessageClass
  db_query_response db_write_response department_request : MessageClass
  department_response file_add_offline_req file_del_offline_req : MessageClass
  file_has_offline_req file_has_offline_res friend_list_request : MessageClass
  friend_list_response group_change_member_notify group_change_member_request : MessageClass
  group_change_member_response group_create_normal_group_notify group_create_tmp_group_request :
      MessageClass
  group_create_tmp_group_response group_dialog_list_request group_dialog_list_response :
      MessageClass
  group_history_msg_request group_list_request group_list_response : MessageClass
  group_msg_list_response group_msg_read_ack group_unread_msg_count_request : MessageClass
  group_unread_msg_count_response group_unread_msg_request group_user_list_request : MessageClass
  group_user_list_response history_msg_request msg_data : MessageClass
  msg_list_response msg_read_ack remove_session_request : MessageClass
  remove_session_response stop_receive_packet unread_msg_count_request : MessageClass
  unread_msg_count_response unread_msg_request user_action_log : MessageClass
  users_info_request users_info_response validate_request : MessageClass

-- The objects of a class.
abbrev pub Message : MessageClass → Type 0
Message all_user_request = AllUserRequest.AllUserRequest
Message all_user_response = AllUserResponse.AllUserResponse
Message db_query_request = DbQueryRequest.DbQueryRequest
Message db_query_response = DbQueryResponse.DbQueryResponse
Message db_write_response = DbWriteResponse.DbWriteResponse
Message department_request = DepartmentRequest.DepartmentRequest
Message department_response = DepartmentResponse.DepartmentResponse
Message file_add_offline_req = FileAddOfflineReq.FileAddOfflineReq
Message file_del_offline_req = FileDelOfflineReq.FileDelOfflineReq
Message file_has_offline_req = FileHasOfflineReq.FileHasOfflineReq
Message file_has_offline_res = FileHasOfflineRes.FileHasOfflineRes
Message friend_list_request = FriendListRequest.FriendListRequest
Message friend_list_response = FriendListResponse.FriendListResponse
Message group_change_member_notify = GroupChangeMemberNotify.GroupChangeMemberNotify
Message group_change_member_request = GroupChangeMemberRequest.GroupChangeMemberRequest
Message group_change_member_response = GroupChangeMemberResponse.GroupChangeMemberResponse
Message group_create_normal_group_notify = GroupCreateNormalGroupNotify.GroupCreateNormalGroupNotify
Message group_create_tmp_group_request = GroupCreateTmpGroupRequest.GroupCreateTmpGroupRequest
Message group_create_tmp_group_response = GroupCreateTmpGroupResponse.GroupCreateTmpGroupResponse
Message group_dialog_list_request = GroupDialogListRequest.GroupDialogListRequest
Message group_dialog_list_response = GroupDialogListResponse.GroupDialogListResponse
Message group_history_msg_request = GroupHistoryMsgRequest.GroupHistoryMsgRequest
Message group_list_request = GroupListRequest.GroupListRequest
Message group_list_response = GroupListResponse.GroupListResponse
Message group_msg_list_response = GroupMsgListResponse.GroupMsgListResponse
Message group_msg_read_ack = GroupMsgReadAck.GroupMsgReadAck
Message group_unread_msg_count_request = GroupUnreadMsgCountRequest.GroupUnreadMsgCountRequest
Message group_unread_msg_count_response = GroupUnreadMsgCountResponse.GroupUnreadMsgCountResponse
Message group_unread_msg_request = GroupUnreadMsgRequest.GroupUnreadMsgRequest
Message group_user_list_request = GroupUserListRequest.GroupUserListRequest
Message group_user_list_response = GroupUserListResponse.GroupUserListResponse
Message history_msg_request = HistoryMsgRequest.HistoryMsgRequest
Message msg_data = MsgData.MsgData
Message msg_list_response = MsgListResponse.MsgListResponse
Message msg_read_ack = MsgReadAck.MsgReadAck
Message remove_session_request = RemoveSessionRequest.RemoveSessionRequest
Message remove_session_response = RemoveSessionResponse.RemoveSessionResponse
Message stop_receive_packet = StopReceivePacket.StopReceivePacket
Message unread_msg_count_request = UnreadMsgCountRequest.UnreadMsgCountRequest
Message unread_msg_count_response = UnreadMsgCountResponse.UnreadMsgCountResponse
Message unread_msg_request = UnreadMsgRequest.UnreadMsgRequest
Message user_action_log = UserActionLog.UserActionLog
Message users_info_request = UsersInfoRequest.UsersInfoRequest
Message users_info_response = UsersInfoResponse.UsersInfoResponse
Message validate_request = ValidateRequest.ValidateRequest

unfoldable pub class_of : (B : ByteStream) (n : MessageClass) → PduClass B (Message n)
class_of B all_user_request = AllUserRequest.pdu_class B
class_of B all_user_response = AllUserResponse.pdu_class B
class_of B db_query_request = DbQueryRequest.pdu_class B
class_of B db_query_response = DbQueryResponse.pdu_class B
class_of B db_write_response = DbWriteResponse.pdu_class B
class_of B department_request = DepartmentRequest.pdu_class B
class_of B department_response = DepartmentResponse.pdu_class B
class_of B file_add_offline_req = FileAddOfflineReq.pdu_class B
class_of B file_del_offline_req = FileDelOfflineReq.pdu_class B
class_of B file_has_offline_req = FileHasOfflineReq.pdu_class B
class_of B file_has_offline_res = FileHasOfflineRes.pdu_class B
class_of B friend_list_request = FriendListRequest.pdu_class B
class_of B friend_list_response = FriendListResponse.pdu_class B
class_of B group_change_member_notify = GroupChangeMemberNotify.pdu_class B
class_of B group_change_member_request = GroupChangeMemberRequest.pdu_class B
class_of B group_change_member_response = GroupChangeMemberResponse.pdu_class B
class_of B group_create_normal_group_notify = GroupCreateNormalGroupNotify.pdu_class B
class_of B group_create_tmp_group_request = GroupCreateTmpGroupRequest.pdu_class B
class_of B group_create_tmp_group_response = GroupCreateTmpGroupResponse.pdu_class B
class_of B group_dialog_list_request = GroupDialogListRequest.pdu_class B
class_of B group_dialog_list_response = GroupDialogListResponse.pdu_class B
class_of B group_history_msg_request = GroupHistoryMsgRequest.pdu_class B
class_of B group_list_request = GroupListRequest.pdu_class B
class_of B group_list_response = GroupListResponse.pdu_class B
class_of B group_msg_list_response = GroupMsgListResponse.pdu_class B
class_of B group_msg_read_ack = GroupMsgReadAck.pdu_class B
class_of B group_unread_msg_count_request = GroupUnreadMsgCountRequest.pdu_class B
class_of B group_unread_msg_count_response = GroupUnreadMsgCountResponse.pdu_class B
class_of B group_unread_msg_request = GroupUnreadMsgRequest.pdu_class B
class_of B group_user_list_request = GroupUserListRequest.pdu_class B
class_of B group_user_list_response = GroupUserListResponse.pdu_class B
class_of B history_msg_request = HistoryMsgRequest.pdu_class B
class_of B msg_data = MsgData.pdu_class B
class_of B msg_list_response = MsgListResponse.pdu_class B
class_of B msg_read_ack = MsgReadAck.pdu_class B
class_of B remove_session_request = RemoveSessionRequest.pdu_class B
class_of B remove_session_response = RemoveSessionResponse.pdu_class B
class_of B stop_receive_packet = StopReceivePacket.pdu_class B
class_of B unread_msg_count_request = UnreadMsgCountRequest.pdu_class B
class_of B unread_msg_count_response = UnreadMsgCountResponse.pdu_class B
class_of B unread_msg_request = UnreadMsgRequest.pdu_class B
class_of B user_action_log = UserActionLog.pdu_class B
class_of B users_info_request = UsersInfoRequest.pdu_class B
class_of B users_info_response = UsersInfoResponse.pdu_class B
class_of B validate_request = ValidateRequest.pdu_class B

unfoldable pub codec_of : (B : ByteStream) (n : MessageClass) → Codec B (class_of B n)
unfolding class_of
codec_of B all_user_request = AllUserRequest.codec B
codec_of B all_user_response = AllUserResponse.codec B
codec_of B db_query_request = DbQueryRequest.codec B
codec_of B db_query_response = DbQueryResponse.codec B
codec_of B db_write_response = DbWriteResponse.codec B
codec_of B department_request = DepartmentRequest.codec B
codec_of B department_response = DepartmentResponse.codec B
codec_of B file_add_offline_req = FileAddOfflineReq.codec B
codec_of B file_del_offline_req = FileDelOfflineReq.codec B
codec_of B file_has_offline_req = FileHasOfflineReq.codec B
codec_of B file_has_offline_res = FileHasOfflineRes.codec B
codec_of B friend_list_request = FriendListRequest.codec B
codec_of B friend_list_response = FriendListResponse.codec B
codec_of B group_change_member_notify = GroupChangeMemberNotify.codec B
codec_of B group_change_member_request = GroupChangeMemberRequest.codec B
codec_of B group_change_member_response = GroupChangeMemberResponse.codec B
codec_of B group_create_normal_group_notify = GroupCreateNormalGroupNotify.codec B
codec_of B group_create_tmp_group_request = GroupCreateTmpGroupRequest.codec B
codec_of B group_create_tmp_group_response = GroupCreateTmpGroupResponse.codec B
codec_of B group_dialog_list_request = GroupDialogListRequest.codec B
codec_of B group_dialog_list_response = GroupDialogListResponse.codec B
codec_of B group_history_msg_request = GroupHistoryMsgRequest.codec B
codec_of B group_list_request = GroupListRequest.codec B
codec_of B group_list_response = GroupListResponse.codec B
codec_of B group_msg_list_response = GroupMsgListResponse.codec B
codec_of B group_msg_read_ack = GroupMsgReadAck.codec B
codec_of B group_unread_msg_count_request = GroupUnreadMsgCountRequest.codec B
codec_of B group_unread_msg_count_response = GroupUnreadMsgCountResponse.codec B
codec_of B group_unread_msg_request = GroupUnreadMsgRequest.codec B
codec_of B group_user_list_request = GroupUserListRequest.codec B
codec_of B group_user_list_response = GroupUserListResponse.codec B
codec_of B history_msg_request = HistoryMsgRequest.codec B
codec_of B msg_data = MsgData.codec B
codec_of B msg_list_response = MsgListResponse.codec B
codec_of B msg_read_ack = MsgReadAck.codec B
codec_of B remove_session_request = RemoveSessionRequest.codec B
codec_of B remove_session_response = RemoveSessionResponse.codec B
codec_of B stop_receive_packet = StopReceivePacket.codec B
codec_of B unread_msg_count_request = UnreadMsgCountRequest.codec B
codec_of B unread_msg_count_response = UnreadMsgCountResponse.codec B
codec_of B unread_msg_request = UnreadMsgRequest.codec B
codec_of B user_action_log = UserActionLog.codec B
codec_of B users_info_request = UsersInfoRequest.codec B
codec_of B users_info_response = UsersInfoResponse.codec B
codec_of B validate_request = ValidateRequest.codec B

-- The attached data that the constructor of a class asks for.
unfoldable pub attach_type : MessageClass → AttachDataType
attach_type all_user_request = attach_db
attach_type all_user_response = attach_db
attach_type db_query_request = attach_db
attach_type db_query_response = attach_db
attach_type db_write_response = attach_null
attach_type department_request = attach_db
attach_type department_response = attach_db
attach_type file_add_offline_req = attach_db
attach_type file_del_offline_req = attach_db
attach_type file_has_offline_req = attach_db
attach_type file_has_offline_res = attach_db
attach_type friend_list_request = attach_db
attach_type friend_list_response = attach_db
attach_type group_change_member_notify = attach_null
attach_type group_change_member_request = attach_db
attach_type group_change_member_response = attach_db
attach_type group_create_normal_group_notify = attach_null
attach_type group_create_tmp_group_request = attach_db
attach_type group_create_tmp_group_response = attach_db
attach_type group_dialog_list_request = attach_db
attach_type group_dialog_list_response = attach_db
attach_type group_history_msg_request = attach_db
attach_type group_list_request = attach_db
attach_type group_list_response = attach_db
attach_type group_msg_list_response = attach_db
attach_type group_msg_read_ack = attach_null
attach_type group_unread_msg_count_request = attach_db
attach_type group_unread_msg_count_response = attach_db
attach_type group_unread_msg_request = attach_db
attach_type group_user_list_request = attach_db
attach_type group_user_list_response = attach_db
attach_type history_msg_request = attach_db
attach_type msg_data = attach_db
attach_type msg_list_response = attach_db
attach_type msg_read_ack = attach_null
attach_type remove_session_request = attach_db
attach_type remove_session_response = attach_db
attach_type stop_receive_packet = attach_null
attach_type unread_msg_count_request = attach_db
attach_type unread_msg_count_response = attach_db
attach_type unread_msg_request = attach_db
attach_type user_action_log = attach_null
attach_type users_info_request = attach_db
attach_type users_info_response = attach_db
attach_type validate_request = attach_db

abbrev pub attach_data_type : (n : MessageClass) → Message n → AttachDataType
attach_data_type all_user_request m = m.base.attach_data_type
attach_data_type all_user_response m = m.base.attach_data_type
attach_data_type db_query_request m = m.base.attach_data_type
attach_data_type db_query_response m = m.base.attach_data_type
attach_data_type db_write_response m = m.base.attach_data_type
attach_data_type department_request m = m.base.attach_data_type
attach_data_type department_response m = m.base.attach_data_type
attach_data_type file_add_offline_req m = m.base.attach_data_type
attach_data_type file_del_offline_req m = m.base.attach_data_type
attach_data_type file_has_offline_req m = m.base.attach_data_type
attach_data_type file_has_offline_res m = m.base.attach_data_type
attach_data_type friend_list_request m = m.base.attach_data_type
attach_data_type friend_list_response m = m.base.attach_data_type
attach_data_type group_change_member_notify m = m.base.attach_data_type
attach_data_type group_change_member_request m = m.base.attach_data_type
attach_data_type group_change_member_response m = m.base.attach_data_type
attach_data_type group_create_normal_group_notify m = m.base.attach_data_type
attach_data_type group_create_tmp_group_request m = m.base.attach_data_type
attach_data_type group_create_tmp_group_response m = m.base.attach_data_type
attach_data_type group_dialog_list_request m = m.base.attach_data_type
attach_data_type group_dialog_list_response m = m.base.attach_data_type
attach_data_type group_history_msg_request m = m.base.attach_data_type
attach_data_type group_list_request m = m.base.attach_data_type
attach_data_type group_list_response m = m.base.attach_data_type
attach_data_type group_msg_list_response m = m.base.attach_data_type
attach_data_type group_msg_read_ack m = m.base.attach_data_type
attach_data_type group_unread_msg_count_request m = m.base.attach_data_type
attach_data_type group_unread_msg_count_response m = m.base.attach_data_type
attach_data_type group_unread_msg_request m = m.base.attach_data_type
attach_data_type group_user_list_request m = m.base.attach_data_type
attach_data_type group_user_list_response m = m.base.attach_data_type
attach_data_type history_msg_request m = m.base.attach_data_type
attach_data_type msg_data m = m.base.attach_data_type
attach_data_type msg_list_response m = m.base.attach_data_type
attach_data_type msg_read_ack m = m.base.attach_data_type
attach_data_type remove_session_request m = m.base.attach_data_type
attach_data_type remove_session_response m = m.base.attach_data_type
attach_data_type stop_receive_packet m = m.base.attach_data_type
attach_data_type unread_msg_count_request m = m.base.attach_data_type
attach_data_type unread_msg_count_response m = m.base.attach_data_type
attach_data_type unread_msg_request m = m.base.attach_data_type
attach_data_type user_action_log m = m.base.attach_data_type
attach_data_type users_info_request m = m.base.attach_data_type
attach_data_type users_info_response m = m.base.attach_data_type
attach_data_type validate_request m = m.base.attach_data_type

unfoldable pub create_of : (n : MessageClass) → ℕ → Message n
create_of all_user_request = AllUserRequest.create
create_of all_user_response = AllUserResponse.create
create_of db_query_request = DbQueryRequest.create
create_of db_query_response = DbQueryResponse.create
create_of db_write_response = DbWriteResponse.create
create_of department_request = DepartmentRequest.create
create_of department_response = DepartmentResponse.create
create_of file_add_offline_req = FileAddOfflineReq.create
create_of file_del_offline_req = FileDelOfflineReq.create
create_of file_has_offline_req = FileHasOfflineReq.create
create_of file_has_offline_res = FileHasOfflineRes.create
create_of friend_list_request = FriendListRequest.create
create_of friend_list_response = FriendListResponse.create
create_of group_change_member_notify = GroupChangeMemberNotify.create
create_of group_change_member_request = GroupChangeMemberRequest.create
create_of group_change_member_response = GroupChangeMemberResponse.create
create_of group_create_normal_group_notify = GroupCreateNormalGroupNotify.create
create_of group_create_tmp_group_request = GroupCreateTmpGroupRequest.create
create_of group_create_tmp_group_response = GroupCreateTmpGroupResponse.create
create_of group_dialog_list_request = GroupDialogListRequest.create
create_of group_dialog_list_response = GroupDialogListResponse.create
create_of group_history_msg_request = GroupHistoryMsgRequest.create
create_of group_list_request = GroupListRequest.create
create_of group_list_response = GroupListResponse.create
create_of group_msg_list_response = GroupMsgListResponse.create
create_of group_msg_read_ack = GroupMsgReadAck.create
create_of group_unread_msg_count_request = GroupUnreadMsgCountRequest.create
create_of group_unread_msg_count_response = GroupUnreadMsgCountResponse.create
create_of group_unread_msg_request = GroupUnreadMsgRequest.create
create_of group_user_list_request = GroupUserListRequest.create
create_of group_user_list_response = GroupUserListResponse.create
create_of history_msg_request = HistoryMsgRequest.create
create_of msg_data = MsgData.create
create_of msg_list_response = MsgListResponse.create
create_of msg_read_ack = MsgReadAck.create
create_of remove_session_request = RemoveSessionRequest.create
create_of remove_session_response = RemoveSessionResponse.create
create_of stop_receive_packet = StopReceivePacket.create
create_of unread_msg_count_request = UnreadMsgCountRequest.create
create_of unread_msg_count_response = UnreadMsgCountResponse.create
create_of unread_msg_request = UnreadMsgRequest.create
create_of user_action_log = UserActionLog.create
create_of users_info_request = UsersInfoRequest.create
create_of users_info_response = UsersInfoResponse.create
create_of validate_request = ValidateRequest.create

-- What the receiver of a message holds: the module of each class says it.
unfoldable pub delivered_of : (n : MessageClass) → ℕ → Message n → Message n
delivered_of all_user_request = AllUserRequest.delivered
delivered_of all_user_response = AllUserResponse.delivered
delivered_of db_query_request = DbQueryRequest.delivered
delivered_of db_query_response = DbQueryResponse.delivered
delivered_of db_write_response = DbWriteResponse.delivered
delivered_of department_request = DepartmentRequest.delivered
delivered_of department_response = DepartmentResponse.delivered
delivered_of file_add_offline_req = FileAddOfflineReq.delivered
delivered_of file_del_offline_req = FileDelOfflineReq.delivered
delivered_of file_has_offline_req = FileHasOfflineReq.delivered
delivered_of file_has_offline_res = FileHasOfflineRes.delivered
delivered_of friend_list_request = FriendListRequest.delivered
delivered_of friend_list_response = FriendListResponse.delivered
delivered_of group_change_member_notify = GroupChangeMemberNotify.delivered
delivered_of group_change_member_request = GroupChangeMemberRequest.delivered
delivered_of group_change_member_response = GroupChangeMemberResponse.delivered
delivered_of group_create_normal_group_notify = GroupCreateNormalGroupNotify.delivered
delivered_of group_create_tmp_group_request = GroupCreateTmpGroupRequest.delivered
delivered_of group_create_tmp_group_response = GroupCreateTmpGroupResponse.delivered
delivered_of group_dialog_list_request = GroupDialogListRequest.delivered
delivered_of group_dialog_list_response = GroupDialogListResponse.delivered
delivered_of group_history_msg_request = GroupHistoryMsgRequest.delivered
delivered_of group_list_request = GroupListRequest.delivered
delivered_of group_list_response = GroupListResponse.delivered
delivered_of group_msg_list_response = GroupMsgListResponse.delivered
delivered_of group_msg_read_ack = GroupMsgReadAck.delivered
delivered_of group_unread_msg_count_request = GroupUnreadMsgCountRequest.delivered
delivered_of group_unread_msg_count_response = GroupUnreadMsgCountResponse.delivered
delivered_of group_unread_msg_request = GroupUnreadMsgRequest.delivered
delivered_of group_user_list_request = GroupUserListRequest.delivered
delivered_of group_user_list_response = GroupUserListResponse.delivered
delivered_of history_msg_request = HistoryMsgRequest.delivered
delivered_of msg_data = MsgData.delivered
delivered_of msg_list_response = MsgListResponse.delivered
delivered_of msg_read_ack = MsgReadAck.delivered
delivered_of remove_session_request = RemoveSessionRequest.delivered
delivered_of remove_session_response = RemoveSessionResponse.delivered
delivered_of stop_receive_packet = StopReceivePacket.delivered
delivered_of unread_msg_count_request = UnreadMsgCountRequest.delivered
delivered_of unread_msg_count_response = UnreadMsgCountResponse.delivered
delivered_of unread_msg_request = UnreadMsgRequest.delivered
delivered_of user_action_log = UserActionLog.delivered
delivered_of users_info_request = UsersInfoRequest.delivered
delivered_of users_info_response = UsersInfoResponse.delivered
delivered_of validate_request = ValidateRequest.delivered

-- Every message of each of the 45 classes whose fields are in range, whose bytes are fewer than
-- 2^32 and whose attached data are of the kind of its class is written by SerializeToArray into a
-- buffer of its ByteSize(), and ParseFromArray of those bytes into a new object of the class
-- succeeds and leaves the fields that the class sends, but for the change type of a
-- GroupChangeMemberRequest, which stays uninitialised.
pub message_transfer :
    (B : ByteStream) (n : MessageClass) (garbage : ℕ) (m : Message n)
    → Fitting B (codec_of B n) m
    → attach_data_type n m ≡ attach_type n
    → Arrives B (class_of B n) m (create_of n garbage) (delivered_of n garbage m)
unfolding class_of codec_of attach_type create_of delivered_of
message_transfer B all_user_request = AllUserRequest.all_user_request_transfer B
message_transfer B all_user_response = AllUserResponse.all_user_response_transfer B
message_transfer B db_query_request = DbQueryRequest.db_query_request_transfer B
message_transfer B db_query_response = DbQueryResponse.db_query_response_transfer B
message_transfer B db_write_response = DbWriteResponse.db_write_response_transfer B
message_transfer B department_request = DepartmentRequest.department_request_transfer B
message_transfer B department_response = DepartmentResponse.department_response_transfer B
message_transfer B file_add_offline_req = FileAddOfflineReq.file_add_offline_req_transfer B
message_transfer B file_del_offline_req = FileDelOfflineReq.file_del_offline_req_transfer B
message_transfer B file_has_offline_req = FileHasOfflineReq.file_has_offline_req_transfer B
message_transfer B file_has_offline_res = FileHasOfflineRes.file_has_offline_res_transfer B
message_transfer B friend_list_request = FriendListRequest.friend_list_request_transfer B
message_transfer B friend_list_response = FriendListResponse.friend_list_response_transfer B
message_transfer B group_change_member_notify =
    GroupChangeMemberNotify.group_change_member_notify_transfer B
message_transfer B group_change_member_request =
    GroupChangeMemberRequest.group_change_member_request_transfer B
message_transfer B group_change_member_response =
    GroupChangeMemberResponse.group_change_member_response_transfer B
message_transfer B group_create_normal_group_notify =
    GroupCreateNormalGroupNotify.group_create_normal_group_notify_transfer B
message_transfer B group_create_tmp_group_request =
    GroupCreateTmpGroupRequest.group_create_tmp_group_request_transfer B
message_transfer B group_create_tmp_group_response =
    GroupCreateTmpGroupResponse.group_create_tmp_group_response_transfer B
message_transfer B group_dialog_list_request =
    GroupDialogListRequest.group_dialog_list_request_transfer B
message_transfer B group_dialog_list_response =
    GroupDialogListResponse.group_dialog_list_response_transfer B
message_transfer B group_history_msg_request =
    GroupHistoryMsgRequest.group_history_msg_request_transfer B
message_transfer B group_list_request = GroupListRequest.group_list_request_transfer B
message_transfer B group_list_response = GroupListResponse.group_list_response_transfer B
message_transfer B group_msg_list_response = GroupMsgListResponse.group_msg_list_response_transfer B
message_transfer B group_msg_read_ack = GroupMsgReadAck.group_msg_read_ack_transfer B
message_transfer B group_unread_msg_count_request =
    GroupUnreadMsgCountRequest.group_unread_msg_count_request_transfer B
message_transfer B group_unread_msg_count_response =
    GroupUnreadMsgCountResponse.group_unread_msg_count_response_transfer B
message_transfer B group_unread_msg_request =
    GroupUnreadMsgRequest.group_unread_msg_request_transfer B
message_transfer B group_user_list_request = GroupUserListRequest.group_user_list_request_transfer B
message_transfer B group_user_list_response =
    GroupUserListResponse.group_user_list_response_transfer B
message_transfer B history_msg_request = HistoryMsgRequest.history_msg_request_transfer B
message_transfer B msg_data = MsgData.msg_data_transfer B
message_transfer B msg_list_response = MsgListResponse.msg_list_response_transfer B
message_transfer B msg_read_ack = MsgReadAck.msg_read_ack_transfer B
message_transfer B remove_session_request = RemoveSessionRequest.remove_session_request_transfer B
message_transfer B remove_session_response =
    RemoveSessionResponse.remove_session_response_transfer B
message_transfer B stop_receive_packet = StopReceivePacket.stop_receive_packet_transfer B
message_transfer B unread_msg_count_request =
    UnreadMsgCountRequest.unread_msg_count_request_transfer B
message_transfer B unread_msg_count_response =
    UnreadMsgCountResponse.unread_msg_count_response_transfer B
message_transfer B unread_msg_request = UnreadMsgRequest.unread_msg_request_transfer B
message_transfer B user_action_log = UserActionLog.user_action_log_transfer B
message_transfer B users_info_request = UsersInfoRequest.users_info_request_transfer B
message_transfer B users_info_response = UsersInfoResponse.users_info_response_transfer B
message_transfer B validate_request = ValidateRequest.validate_request_transfer B
