-- ===== src/Server/Dispatch.antt =====
-- zaresd/register_message_factory.cc and zaresd/message_handler/message_handler.cc: the classes by
-- message type, and the handlers by message type.
use zattd.Base.{
  ℕ, ◌≡◌, refl, arith, Bool, true, false, if◌then◌else◌, ◌==◌, List, [], ◌∷◌, Option, none, some,
}
use zattd.Base.StdMap.{StdMap, find, put}
use zattd.Proto.MessageTypes.{
  message_heartbeat, message_all_user_request, message_department_request,
  message_file_add_offline_req, message_file_del_offline_req, message_file_has_offline_req,
  message_friend_list_request, message_group_change_member_request,
  message_group_create_tmp_group_request, message_group_dialog_list_request,
  message_group_history_msg_request, message_group_list_request, message_group_msg_read_ack,
  message_group_unread_msg_count_request, message_group_unread_msg_request,
  message_group_user_list_request, message_msg_data, message_msg_read_ack,
  message_remove_session_request, message_unread_msg_count_request, message_unread_msg_request,
  message_users_info_request, message_validate_request,
}
use zattd.Proto.Message.{MessageClass}
use zattd.Proto.AllUserRequest
use zattd.Proto.AllUserResponse
use zattd.Proto.DbQueryRequest
use zattd.Proto.DbQueryResponse
use zattd.Proto.DbWriteResponse
use zattd.Proto.DepartmentRequest
use zattd.Proto.DepartmentResponse
use zattd.Proto.FileAddOfflineReq
use zattd.Proto.FileDelOfflineReq
use zattd.Proto.FileHasOfflineReq
use zattd.Proto.FileHasOfflineRes
use zattd.Proto.FriendListRequest
use zattd.Proto.FriendListResponse
use zattd.Proto.GroupChangeMemberNotify
use zattd.Proto.GroupChangeMemberRequest
use zattd.Proto.GroupChangeMemberResponse
use zattd.Proto.GroupCreateNormalGroupNotify
use zattd.Proto.GroupCreateTmpGroupRequest
use zattd.Proto.GroupCreateTmpGroupResponse
use zattd.Proto.GroupDialogListRequest
use zattd.Proto.GroupDialogListResponse
use zattd.Proto.GroupHistoryMsgRequest
use zattd.Proto.GroupListRequest
use zattd.Proto.GroupListResponse
use zattd.Proto.GroupMsgListResponse
use zattd.Proto.GroupMsgReadAck
use zattd.Proto.GroupUnreadMsgCountRequest
use zattd.Proto.GroupUnreadMsgCountResponse
use zattd.Proto.GroupUnreadMsgRequest
use zattd.Proto.GroupUserListRequest
use zattd.Proto.GroupUserListResponse
use zattd.Proto.HistoryMsgRequest
use zattd.Proto.MsgData
use zattd.Proto.MsgListResponse
use zattd.Proto.MsgReadAck
use zattd.Proto.RemoveSessionRequest
use zattd.Proto.RemoveSessionResponse
use zattd.Proto.StopReceivePacket
use zattd.Proto.UnreadMsgCountRequest
use zattd.Proto.UnreadMsgCountResponse
use zattd.Proto.UnreadMsgRequest
use zattd.Proto.UserActionLog
use zattd.Proto.UsersInfoRequest
use zattd.Proto.UsersInfoResponse
use zattd.Proto.ValidateRequest

-- The message type of an object of the class.
abbrev pub message_type_of : MessageClass → ℕ
message_type_of MessageClass.all_user_request = AllUserRequest.message_type
message_type_of MessageClass.all_user_response = AllUserResponse.message_type
message_type_of MessageClass.db_query_request = DbQueryRequest.message_type
message_type_of MessageClass.db_query_response = DbQueryResponse.message_type
message_type_of MessageClass.db_write_response = DbWriteResponse.message_type
message_type_of MessageClass.department_request = DepartmentRequest.message_type
message_type_of MessageClass.department_response = DepartmentResponse.message_type
message_type_of MessageClass.file_add_offline_req = FileAddOfflineReq.message_type
message_type_of MessageClass.file_del_offline_req = FileDelOfflineReq.message_type
message_type_of MessageClass.file_has_offline_req = FileHasOfflineReq.message_type
message_type_of MessageClass.file_has_offline_res = FileHasOfflineRes.message_type
message_type_of MessageClass.friend_list_request = FriendListRequest.message_type
message_type_of MessageClass.friend_list_response = FriendListResponse.message_type
message_type_of MessageClass.group_change_member_notify = GroupChangeMemberNotify.message_type
message_type_of MessageClass.group_change_member_request = GroupChangeMemberRequest.message_type
message_type_of MessageClass.group_change_member_response = GroupChangeMemberResponse.message_type
message_type_of MessageClass.group_create_normal_group_notify =
    GroupCreateNormalGroupNotify.message_type
message_type_of MessageClass.group_create_tmp_group_request =
    GroupCreateTmpGroupRequest.message_type
message_type_of MessageClass.group_create_tmp_group_response =
    GroupCreateTmpGroupResponse.message_type
message_type_of MessageClass.group_dialog_list_request = GroupDialogListRequest.message_type
message_type_of MessageClass.group_dialog_list_response = GroupDialogListResponse.message_type
message_type_of MessageClass.group_history_msg_request = GroupHistoryMsgRequest.message_type
message_type_of MessageClass.group_list_request = GroupListRequest.message_type
message_type_of MessageClass.group_list_response = GroupListResponse.message_type
message_type_of MessageClass.group_msg_list_response = GroupMsgListResponse.message_type
message_type_of MessageClass.group_msg_read_ack = GroupMsgReadAck.message_type
message_type_of MessageClass.group_unread_msg_count_request =
    GroupUnreadMsgCountRequest.message_type
message_type_of MessageClass.group_unread_msg_count_response =
    GroupUnreadMsgCountResponse.message_type
message_type_of MessageClass.group_unread_msg_request = GroupUnreadMsgRequest.message_type
message_type_of MessageClass.group_user_list_request = GroupUserListRequest.message_type
message_type_of MessageClass.group_user_list_response = GroupUserListResponse.message_type
message_type_of MessageClass.history_msg_request = HistoryMsgRequest.message_type
message_type_of MessageClass.msg_data = MsgData.message_type
message_type_of MessageClass.msg_list_response = MsgListResponse.message_type
message_type_of MessageClass.msg_read_ack = MsgReadAck.message_type
message_type_of MessageClass.remove_session_request = RemoveSessionRequest.message_type
message_type_of MessageClass.remove_session_response = RemoveSessionResponse.message_type
message_type_of MessageClass.stop_receive_packet = StopReceivePacket.message_type
message_type_of MessageClass.unread_msg_count_request = UnreadMsgCountRequest.message_type
message_type_of MessageClass.unread_msg_count_response = UnreadMsgCountResponse.message_type
message_type_of MessageClass.unread_msg_request = UnreadMsgRequest.message_type
message_type_of MessageClass.user_action_log = UserActionLog.message_type
message_type_of MessageClass.users_info_request = UsersInfoRequest.message_type
message_type_of MessageClass.users_info_response = UsersInfoResponse.message_type
message_type_of MessageClass.validate_request = ValidateRequest.message_type

abbrev pub is_some {ℓ} : {A : Type ℓ} → Option A → Bool
is_some none = false
is_some (some a) = true

-- A table into which the entries were put, the last one first.
unfoldable pub fill : {A : Type 0} → List (ℕ × A) → StdMap A
fill [] = []
fill ((t, a) ∷ entries) = put t a (fill entries)

-- The registrations of RegisterPDUMessageFactory.
unfoldable pub message_factories : List (ℕ × MessageClass)
message_factories =
    (message_validate_request, MessageClass.validate_request)
    ∷ (message_friend_list_request, MessageClass.friend_list_request)
    ∷ (message_remove_session_request, MessageClass.remove_session_request)
    ∷ (message_department_request, MessageClass.department_request)
    ∷ (message_users_info_request, MessageClass.users_info_request)
    ∷ (message_all_user_request, MessageClass.all_user_request)
    ∷ (message_msg_data, MessageClass.msg_data)
    ∷ (message_unread_msg_count_request, MessageClass.unread_msg_count_request)
    ∷ (message_unread_msg_request, MessageClass.unread_msg_request)
    ∷ (message_msg_read_ack, MessageClass.msg_read_ack)
    ∷ (message_group_list_request, MessageClass.group_list_request)
    ∷ (message_group_user_list_request, MessageClass.group_user_list_request)
    ∷ (message_group_unread_msg_count_request, MessageClass.group_unread_msg_count_request)
    ∷ (message_group_unread_msg_request, MessageClass.group_unread_msg_request)
    ∷ (message_group_history_msg_request, MessageClass.group_history_msg_request)
    ∷ (message_group_msg_read_ack, MessageClass.group_msg_read_ack)
    ∷ (message_group_create_tmp_group_request, MessageClass.group_create_tmp_group_request)
    ∷ (message_group_change_member_request, MessageClass.group_change_member_request)
    ∷ (message_group_dialog_list_request, MessageClass.group_dialog_list_request)
    ∷ (message_file_has_offline_req, MessageClass.file_has_offline_req)
    ∷ (message_file_add_offline_req, MessageClass.file_add_offline_req)
    ∷ (message_file_del_offline_req, MessageClass.file_del_offline_req)
    ∷ []

-- The assignments of InitMessageHandlerTable. A handler stands as the class to which it casts its
-- message.
unfoldable pub message_handlers : List (ℕ × MessageClass)
message_handlers =
    (message_validate_request, MessageClass.validate_request)
    ∷ (message_friend_list_request, MessageClass.friend_list_request)
    ∷ (message_remove_session_request, MessageClass.remove_session_request)
    ∷ (message_department_request, MessageClass.department_request)
    ∷ (message_users_info_request, MessageClass.users_info_request)
    ∷ (message_all_user_request, MessageClass.all_user_request)
    ∷ (message_msg_data, MessageClass.msg_data)
    ∷ (message_unread_msg_count_request, MessageClass.unread_msg_count_request)
    ∷ (message_unread_msg_request, MessageClass.unread_msg_request)
    ∷ (message_msg_read_ack, MessageClass.msg_read_ack)
    ∷ (message_group_list_request, MessageClass.group_list_request)
    ∷ (message_group_user_list_request, MessageClass.group_user_list_request)
    ∷ (message_group_unread_msg_count_request, MessageClass.group_unread_msg_count_request)
    ∷ (message_group_unread_msg_request, MessageClass.group_unread_msg_request)
    ∷ (message_group_history_msg_request, MessageClass.group_history_msg_request)
    ∷ (message_group_msg_read_ack, MessageClass.group_msg_read_ack)
    ∷ (message_group_create_tmp_group_request, MessageClass.group_create_tmp_group_request)
    ∷ (message_group_change_member_request, MessageClass.group_change_member_request)
    ∷ (message_group_dialog_list_request, MessageClass.group_dialog_list_request)
    ∷ (message_file_has_offline_req, MessageClass.file_has_offline_req)
    ∷ (message_file_add_offline_req, MessageClass.file_add_offline_req)
    ∷ (message_file_del_offline_req, MessageClass.file_del_offline_req)
    ∷ []

unfoldable pub create_message : ℕ → Option MessageClass
unfolding message_factories fill
create_message t = find t (fill message_factories)

-- DispatchMessageHandler: the handler that it calls for a message, or none.
unfoldable pub dispatch_message_handler : MessageClass → Option MessageClass
unfolding message_handlers fill
dispatch_message_handler n = find (message_type_of n) (fill message_handlers)

unfoldable pub check_message_handler : ℕ → Bool
unfolding message_handlers fill
check_message_handler t = is_some (find t (fill message_handlers))

-- A message type has a factory exactly if it has a handler.
pub handler_iff_factory : (t : ℕ) → check_message_handler t ≡ is_some (create_message t)
unfolding check_message_handler create_message message_handlers message_factories fill put
handler_iff_factory t = refl

-- What becomes of a packet.
pub data Fate : Type 0 where
  sent_back posted dropped : Fate

-- ClientCommHandler::OnDataReceived of zaresd/client_comm_handler.cc, for a message type.
unfoldable pub on_data_received : ℕ → Fate
unfolding check_message_handler
on_data_received t =
    if t == message_heartbeat
    then sent_back
    else if check_message_handler t
    then posted
    else dropped

-- A packet is sent back if it is a heartbeat, posted to a handler thread if the factory makes an
-- object for its message type, and dropped otherwise.
pub on_data_received_lem :
    (t : ℕ)
    → on_data_received t ≡ (
        if t == message_heartbeat
        then sent_back
        else elim (create_message t) [ none ↦ dropped | some n ↦ posted ])
unfolding on_data_received
on_data_received_lem t = ground (arith, handler_iff_factory t)

-- The members of a table, in order.
AllOf : {A : Type 0} → (ℕ → A → Type 0) → StdMap A → Type 0
AllOf P [] = Unit {0}
AllOf P ((t, a) ∷ m) = P t a × AllOf P m

find-AllOf :
    {A : Type 0} (P : ℕ → A → Type 0) (m : StdMap A)
    → AllOf P m
    → (t : ℕ) (a : A) → find t m ≡ some a
    → P t a
unfolding find AllOf
find-AllOf P [] h t a e = absurd (cc)
find-AllOf P ((s, b) ∷ m) h t a e = ground (arith, find-AllOf P m h.1 t a)

-- What the dispatch of a class does: one class has no handler under its own message type.
abbrev pub expected_handler : MessageClass → Option MessageClass
expected_handler MessageClass.group_history_msg_request = none
expected_handler n = some n

-- By the message type of its constructor, a class that the factory makes is dispatched to the
-- handler that casts to that class, unless it is GroupHistoryMsgRequest, which finds no handler.
pub created_dispatched :
    (t : ℕ) (n : MessageClass)
    → create_message t ≡ some n
    → dispatch_message_handler n ≡ expected_handler n
unfolding create_message AllOf message_factories fill put dispatch_message_handler find
    message_handlers
created_dispatched t n e =
    find-AllOf (λ s k. dispatch_message_handler k ≡ expected_handler k) (fill message_factories)
      (
        refl,
        (
          refl,
          (
            refl,
            (
              refl,
              (
                refl,
                (
                  refl,
                  (
                    refl,
                    (
                      refl,
                      (
                        refl,
                        (
                          refl,
                          (
                            refl,
                            (
                              refl,
                              (
                                refl,
                                (
                                  refl,
                                  (
                                    refl,
                                    (refl, (refl, (refl, (refl, (refl, (refl, (refl, tt))))))),
                                  ),
                                ),
                              ),
                            ),
                          ),
                        ),
                      ),
                    ),
                  ),
                ),
              ),
            ),
          ),
        ),
      )
      t n e
