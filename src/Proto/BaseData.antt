-- ===== src/Proto/BaseData.antt =====
-- proto/base_data.h: the structures that messages and managers pass on, with the ranges that their
-- C++ types give them, and what `new` makes of each.
use zattd.Base.{ℕ, ◌<◌, List, [], length, All, u32_mod}
use zattd.Wire.Arrays.{IsUint32}

pub record UserInfo : Type 0 where
  pub user_id : ℕ
  pub name : List ℕ
  pub nick_name : List ℕ
  pub avatar_url : List ℕ
  pub title : List ℕ
  pub position : List ℕ
  pub role_status : ℕ
  pub sex : ℕ
  pub depart_id : ℕ
  pub job_num : ℕ
  pub telphone : List ℕ
  pub email : List ℕ
  pub user_updated : ℕ

abbrev pub new_user_info : UserInfo
new_user_info = record {
  user_id = 0;
  name = [];
  nick_name = [];
  avatar_url = [];
  title = [];
  position = [];
  role_status = 0;
  sex = 0;
  depart_id = 0;
  job_num = 0;
  telphone = [];
  email = [];
  user_updated = 0;
}

pub record UserInfoInRange (v : UserInfo) : Type 0 where
  pub user_id : v.user_id < u32_mod
  pub name : length v.name < u32_mod
  pub nick_name : length v.nick_name < u32_mod
  pub avatar_url : length v.avatar_url < u32_mod
  pub title : length v.title < u32_mod
  pub position : length v.position < u32_mod
  pub role_status : v.role_status < u32_mod
  pub sex : v.sex < u32_mod
  pub depart_id : v.depart_id < u32_mod
  pub job_num : v.job_num < u32_mod
  pub telphone : length v.telphone < u32_mod
  pub email : length v.email < u32_mod
  pub user_updated : v.user_updated < u32_mod

pub record FriendInfo : Type 0 where
  pub friend_user_id : ℕ
  pub updated : ℕ

abbrev pub new_friend_info : FriendInfo
new_friend_info = record { friend_user_id = 0; updated = 0 }

pub record FriendInfoInRange (v : FriendInfo) : Type 0 where
  pub friend_user_id : v.friend_user_id < u32_mod
  pub updated : v.updated < u32_mod

pub record DepartmentInfo : Type 0 where
  pub depart_id : ℕ
  pub title : List ℕ
  pub description : List ℕ
  pub parent_depart_id : ℕ
  pub leader : ℕ
  pub status : ℕ

abbrev pub new_department_info : DepartmentInfo
new_department_info = record {
  depart_id = 0;
  title = [];
  description = [];
  parent_depart_id = 0;
  leader = 0;
  status = 0;
}

pub record DepartmentInfoInRange (v : DepartmentInfo) : Type 0 where
  pub depart_id : v.depart_id < u32_mod
  pub title : length v.title < u32_mod
  pub description : length v.description < u32_mod
  pub parent_depart_id : v.parent_depart_id < u32_mod
  pub leader : v.leader < u32_mod
  pub status : v.status < u32_mod

pub record UserUnreadMsgCount : Type 0 where
  pub from_user_id : ℕ
  pub unread_msg_count : ℕ

abbrev pub new_user_unread_msg_count : UserUnreadMsgCount
new_user_unread_msg_count = record { from_user_id = 0; unread_msg_count = 0 }

pub record UserUnreadMsgCountInRange (v : UserUnreadMsgCount) : Type 0 where
  pub from_user_id : v.from_user_id < u32_mod
  pub unread_msg_count : v.unread_msg_count < u32_mod

pub record ServerMsg : Type 0 where
  pub from_user_id : ℕ
  pub from_name : List ℕ
  pub from_nick_name : List ℕ
  pub from_avatar_url : List ℕ
  pub create_time : ℕ
  pub msg_type : ℕ
  pub msg_data : List ℕ

abbrev pub new_server_msg : ServerMsg
new_server_msg = record {
  from_user_id = 0;
  from_name = [];
  from_nick_name = [];
  from_avatar_url = [];
  create_time = 0;
  msg_type = 0;
  msg_data = [];
}

pub record ServerMsgInRange (v : ServerMsg) : Type 0 where
  pub from_user_id : v.from_user_id < u32_mod
  pub from_name : length v.from_name < u32_mod
  pub from_nick_name : length v.from_nick_name < u32_mod
  pub from_avatar_url : length v.from_avatar_url < u32_mod
  pub create_time : v.create_time < u32_mod
  pub msg_type : v.msg_type < 256
  pub msg_data : length v.msg_data < u32_mod

pub record GroupInfo : Type 0 where
  pub group_id : ℕ
  pub group_name : List ℕ
  pub group_avatar : List ℕ
  pub group_creator_id : ℕ
  pub group_type : ℕ
  pub group_updated : ℕ
  pub group_memeber_list : List ℕ

abbrev pub new_group_info : GroupInfo
new_group_info = record {
  group_id = 0;
  group_name = [];
  group_avatar = [];
  group_creator_id = 0;
  group_type = 0;
  group_updated = 0;
  group_memeber_list = [];
}

pub record GroupInfoInRange (v : GroupInfo) : Type 0 where
  pub group_id : v.group_id < u32_mod
  pub group_name : length v.group_name < u32_mod
  pub group_avatar : length v.group_avatar < u32_mod
  pub group_creator_id : v.group_creator_id < u32_mod
  pub group_type : v.group_type < u32_mod
  pub group_updated : v.group_updated < u32_mod
  pub group_memeber_list : All IsUint32 v.group_memeber_list
  pub group_memeber_list_size : length v.group_memeber_list < u32_mod

pub record GroupUnreadMsgCount : Type 0 where
  pub group_id : ℕ
  pub unread_msg_count : ℕ

abbrev pub new_group_unread_msg_count : GroupUnreadMsgCount
new_group_unread_msg_count = record { group_id = 0; unread_msg_count = 0 }

pub record GroupUnreadMsgCountInRange (v : GroupUnreadMsgCount) : Type 0 where
  pub group_id : v.group_id < u32_mod
  pub unread_msg_count : v.unread_msg_count < u32_mod

pub record GroupMsg : Type 0 where
  pub from_user_id : ℕ
  pub create_time : ℕ
  pub msg_content : List ℕ

abbrev pub new_group_msg : GroupMsg
new_group_msg = record { from_user_id = 0; create_time = 0; msg_content = [] }

pub record GroupMsgInRange (v : GroupMsg) : Type 0 where
  pub from_user_id : v.from_user_id < u32_mod
  pub create_time : v.create_time < u32_mod
  pub msg_content : length v.msg_content < u32_mod

pub record OfflineFile : Type 0 where
  pub from_id : ℕ
  pub task_id : List ℕ
  pub file_name : List ℕ
  pub file_size : ℕ

abbrev pub new_offline_file : OfflineFile
new_offline_file = record { from_id = 0; task_id = []; file_name = []; file_size = 0 }

pub record OfflineFileInRange (v : OfflineFile) : Type 0 where
  pub from_id : v.from_id < u32_mod
  pub task_id : length v.task_id < u32_mod
  pub file_name : length v.file_name < u32_mod
  pub file_size : v.file_size < u32_mod
