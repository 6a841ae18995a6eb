-- ===== src/Proto/ValidateResponse.antt =====
-- proto/validate_response.{h,cc}
use zattd.Base.{
  ℕ, ◌+◌, ◌<◌, ◌≡◌, Bool, true, List, [], ◌∷◌, ◌++◌, arith, length, u32_mod, to_u32, Option, none,
  some, if◌then◌else◌, ◌==◌,
}
use zattd.Wire.Stream.{Item, u32, str, ByteStream}
use zattd.Wire.Rules.{
  ◌>>=◌, ◌>>◌, pure, checked, os_checked, Writes, Writes-u32, Writes-string, ◌⨾◌,
}
use zattd.Wire.Arrays.{object, put_object}
use zattd.Proto.BaseData.{UserInfo, new_user_info, UserInfoInRange}
use zattd.Proto.BasePdu.{BaseTeamTalkPdu, attach_db, new_base, base_byte_size, sizeof_string}
use zattd.Proto.MessageTypes.{message_validate_response}

unfoldable pub user_byte_size : UserInfo → ℕ
user_byte_size v = to_u32 (
    4
    + sizeof_string v.nick_name
    + sizeof_string v.avatar_url
    + sizeof_string v.title
    + sizeof_string v.position
    + 4
    + 4
    + 4
    + 4
    + sizeof_string v.telphone
    + sizeof_string v.email)

-- `user` is none for a pointer that is NULL.
pub record ValidateResponse : Type 0 where
  pub base : BaseTeamTalkPdu
  pub user_name : List ℕ
  pub result : ℕ
  pub user : Option UserInfo

-- What the constructor passes to the base class.
abbrev pub message_type : ℕ
message_type = message_validate_response

-- The constructor; what it leaves uninitialised holds `garbage`.
unfoldable pub create : ℕ → ValidateResponse
unfolding new_base
create garbage = record {
  base = new_base attach_db garbage;
  user_name = [];
  result = garbage;
  user = none;
}

unfoldable pub byte_size : ValidateResponse → ℕ
unfolding user_byte_size
byte_size m =
    let size = to_u32 (base_byte_size m.base + (sizeof_string m.user_name + 4)) in
    elim m.user [ none ↦ size | some v ↦ to_u32 (size + user_byte_size v) ]

-- The values that a successful validation sends of a user.
unfoldable pub user_items : UserInfo → List Item
user_items v =
    u32 v.user_id
    ∷ str v.nick_name
    ∷ str v.avatar_url
    ∷ str v.title
    ∷ str v.position
    ∷ u32 v.role_status
    ∷ u32 v.sex
    ∷ u32 v.depart_id
    ∷ u32 v.job_num
    ∷ str v.telphone
    ∷ str v.email
    ∷ []

-- mutable_user(): a new object for a pointer that is NULL.
abbrev pub mutable_user : Option UserInfo → UserInfo
mutable_user none = new_user_info
mutable_user (some v) = v

module _ (B : ByteStream) where
  open B use {
    Out, In, fail, read_u32, read_string, write_u32, write_string, reader, reads_u32, reads_string,
    reader_good,
  }

  unfoldable pub parse_user : UserInfo → In → Bool × UserInfo × In
  parse_user v = checked B do
    user_id ← read_u32 v.user_id
    nick_name ← read_string v.nick_name
    avatar_url ← read_string v.avatar_url
    title ← read_string v.title
    position ← read_string v.position
    role_status ← read_u32 v.role_status
    sex ← read_u32 v.sex
    depart_id ← read_u32 v.depart_id
    job_num ← read_u32 v.job_num
    telphone ← read_string v.telphone
    email ← read_string v.email
    pure (record v {
      user_id = user_id;
      nick_name = nick_name;
      avatar_url = avatar_url;
      title = title;
      position = position;
      role_status = role_status;
      sex = sex;
      depart_id = depart_id;
      job_num = job_num;
      telphone = telphone;
      email = email;
    })

  unfoldable pub serialize_user : UserInfo → Out → Bool × Out
  serialize_user v = os_checked B do
    write_u32 v.user_id
    write_string v.nick_name
    write_string v.avatar_url
    write_string v.title
    write_string v.position
    write_u32 v.role_status
    write_u32 v.sex
    write_u32 v.depart_id
    write_u32 v.job_num
    write_string v.telphone
    write_string v.email

  -- The user is read if the result is not 0.
  unfoldable pub parse_from_byte_stream : ValidateResponse → In → Bool × ValidateResponse × In
  unfolding parse_user
  parse_from_byte_stream m = checked B do
    user_name ← read_string m.user_name
    result ← read_u32 m.result
    user ← (λ is.
        let (v, is') = object B parse_user (mutable_user m.user) is in
        if result == 0 then (m.user, is) else (some v, is'))
    pure (record m { user_name = user_name; result = result; user = user })

  -- The user is written if the result is 0; `none` stands for the use of a pointer that is NULL.
  unfoldable pub serialize_to_byte_stream : ValidateResponse → Out → Option (Bool × Out)
  unfolding serialize_user
  serialize_to_byte_stream m os =
      let start = write_u32 m.result (write_string m.user_name os) in
      let (ok, os') = os_checked B (λ os. os) start in
      if m.result == 0
      then elim m.user [
        | none ↦ none
        | some v ↦ some (os_checked B (put_object B serialize_user v) start)
      ]
      else some (ok, os')

  -- Parsing a ValidateResponse from a stream that holds a user name, the result 0 and a user
  -- succeeds, but leaves the user of the object as it was and the bytes of the user in the stream.
  pub validated_user-unread :
      (m0 : ValidateResponse) (user_name : List ℕ) (v : UserInfo) (rest : List Item)
      → length user_name < u32_mod
      → parse_from_byte_stream m0 (reader (str user_name ∷ u32 0 ∷ user_items v ++ rest))
        ≡ (true, record m0 { user_name = user_name; result = 0 }, reader (user_items v ++ rest))
  unfolding parse_from_byte_stream
  validated_user-unread m0 user_name v rest h =
      let z : 0 < u32_mod = ground arith in
      rw (reads_string _ _ _ h, reads_u32 _ _ _ z, reader_good)

  -- A ValidateResponse with result 0 and a user, whose values are in range, is written as its user
  -- name, its result and the values of the user but for the name, and a stream without the room
  -- for them fails.
  pub validated_user-written :
      (m : ValidateResponse) (v : UserInfo)
      → m.result ≡ 0
      → m.user ≡ some v
      → length m.user_name < u32_mod
      → UserInfoInRange v
      → Writes B
          (λ os. (elim (serialize_to_byte_stream m os) [ none ↦ os | some r ↦ r.1 ]))
          (str m.user_name ∷ u32 m.result ∷ user_items v)
  unfolding serialize_to_byte_stream serialize_user user_items
  validated_user-written m v zero there hn h =
      let z : (m.result == 0) ≡ true = ground arith in
      rw (z, there)
        (Writes-string B hn
          ⨾ Writes-u32 B (ground arith)
          ⨾ Writes-u32 B h.user_id
          ⨾ Writes-string B h.nick_name
          ⨾ Writes-string B h.avatar_url
          ⨾ Writes-string B h.title
          ⨾ Writes-string B h.position
          ⨾ Writes-u32 B h.role_status
          ⨾ Writes-u32 B h.sex
          ⨾ Writes-u32 B h.depart_id
          ⨾ Writes-u32 B h.job_num
          ⨾ Writes-string B h.telphone
          ⨾ Writes-string B h.email)
