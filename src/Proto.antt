-- ===== src/Proto.antt =====
-- The messages of the server: proto/.
pub mod BaseData
pub mod BasePdu
pub mod Codec
pub mod AllUserRequest
pub mod AllUserResponse
pub mod DbQueryRequest
pub mod DbQueryResponse
pub mod DbWriteResponse
pub mod DepartmentRequest
pub mod DepartmentResponse
pub mod FileAddOfflineReq
pub mod FileDelOfflineReq
pub mod FileHasOfflineReq
pub mod FileHasOfflineRes
pub mod FriendListRequest
pub mod FriendListResponse
pub mod GroupChangeMemberNotify
pub mod GroupChangeMemberRequest
pub mod GroupChangeMemberResponse
pub mod GroupCreateNormalGroupNotify
pub mod GroupCreateTmpGroupRequest
pub mod GroupCreateTmpGroupResponse
pub mod GroupDialogListRequest
pub mod GroupDialogListResponse
pub mod GroupHistoryMsgRequest
pub mod GroupListRequest
pub mod GroupListResponse
pub mod GroupMsgListResponse
pub mod GroupMsgReadAck
pub mod GroupUnreadMsgCountRequest
pub mod GroupUnreadMsgCountResponse
pub mod GroupUnreadMsgRequest
pub mod GroupUserListRequest
pub mod GroupUserListResponse
pub mod HistoryMsgRequest
pub mod MsgData
pub mod MsgListResponse
pub mod MsgReadAck
pub mod RemoveSessionRequest
pub mod RemoveSessionResponse
pub mod StopReceivePacket
pub mod UnreadMsgCountRequest
pub mod UnreadMsgCountResponse
pub mod UnreadMsgRequest
pub mod UserActionLog
pub mod UsersInfoRequest
pub mod UsersInfoResponse
pub mod ValidateRequest
pub mod Message
pub mod MessageTypes
mod Tests
mod FieldTests
pub mod ValidateResponse
mod ValidateTests
