-- ===== src/Proto/AllUserResponse.antt =====
-- proto/all_user_response.{h,cc}
use zattd.Base.{
  ℕ, ◌+◌, ◌<◌, ◌≡◌, refl, Bool, true, List, [], ◌∷◌, ◌++◌, map, arith, length, u32_mod, to_u32, All,
}
use zattd.Wire.Stream.{Item, u32, str, size, ByteStream}
use zattd.Wire.Rules.{
  ◌>>=◌, ◌>>◌, pure, checked, os_checked, Reads, Writes, Writes-u32, Writes-string, ◌⨾◌,
}
use zattd.Wire.Arrays.{
  array_items, object, put_object, parse_objectptr_array, serialize_objectptr_array,
  calculate_container_byte_size2, container_size2, Reads-objectptr_array, Writes-objectptr_array,
}
use zattd.Proto.BaseData.{UserInfo, new_user_info, UserInfoInRange}
use zattd.Proto.MessageTypes.{message_all_user_response}
use zattd.Proto.BasePdu.{
  BaseTeamTalkPdu, attach_db, new_base, base_byte_size, sizeof_string, has_attach_data, PduClass,
}
use zattd.Proto.Codec.{Arrives, Codec, received, Fitting, roundtrip}

unfoldable pub user_info_byte_size : UserInfo → ℕ
user_info_byte_size v = to_u32 (
    4
    + sizeof_string v.name
    + sizeof_string v.nick_name
    + sizeof_string v.avatar_url
    + sizeof_string v.title
    + sizeof_string v.position
    + 4
    + 4
    + 4
    + 4
    + sizeof_string v.telphone
    + sizeof_string v.email)

unfoldable pub user_info_items : UserInfo → List Item
user_info_items v =
    u32 v.user_id
    ∷ str v.name
    ∷ str v.nick_name
    ∷ str v.avatar_url
    ∷ str v.title
    ∷ str v.position
    ∷ u32 v.role_status
    ∷ u32 v.sex
    ∷ u32 v.depart_id
    ∷ u32 v.job_num
    ∷ str v.telphone
    ∷ str v.email
    ∷ []

-- What arrives of a member of the array.
unfoldable pub parsed_user_info : UserInfo → UserInfo
parsed_user_info v = record v { user_updated = new_user_info.user_updated }

user_info_byte_size-items :
    (v : UserInfo) → user_info_byte_size v ≡ to_u32 (size (user_info_items v))
unfolding user_info_byte_size user_info_items
user_info_byte_size-items v = omega arith

pub record AllUserResponse : Type 0 where
  pub base : BaseTeamTalkPdu
  pub from_user_id : ℕ
  pub user_info_list : List UserInfo

-- What the constructor passes to the base class.
abbrev pub message_type : ℕ
message_type = message_all_user_response

-- The constructor; what it leaves uninitialised holds `garbage`.
unfoldable pub create : ℕ → AllUserResponse
unfolding new_base
create garbage = record {
  base = new_base attach_db garbage;
  from_user_id = garbage;
  user_info_list = [];
}

unfoldable pub byte_size : AllUserResponse → ℕ
byte_size m =
    calculate_container_byte_size2 user_info_byte_size (to_u32 (base_byte_size m.base + 4))
      m.user_info_list

unfoldable pub items : AllUserResponse → List Item
items m = u32 m.from_user_id ∷ array_items user_info_items m.user_info_list

pub record InRange (m : AllUserResponse) : Type 0 where
  pub from_user_id : m.from_user_id < u32_mod
  pub user_info_list : All UserInfoInRange m.user_info_list
  pub user_info_list_size : length m.user_info_list < u32_mod

unfoldable pub decode : AllUserResponse → AllUserResponse → AllUserResponse
decode m0 m = record m {
  base = m0.base;
  user_info_list = m0.user_info_list ++ map parsed_user_info m.user_info_list;
}

pub byte_size-items :
    (m : AllUserResponse) → byte_size m ≡ to_u32 (base_byte_size m.base + size (items m))
unfolding byte_size items
byte_size-items m = omega (
  arith,
  container_size2 user_info_items user_info_byte_size-items (to_u32 (base_byte_size m.base + 4))
      m.user_info_list,
)

-- What the receiver of `m` holds.
unfoldable pub delivered : ℕ → AllUserResponse → AllUserResponse
unfolding new_base create parsed_user_info
delivered garbage m = record m {
  base = record (new_base attach_db garbage) { attach_data = m.base.attach_data };
  user_info_list = map parsed_user_info m.user_info_list;
}

module _ (B : ByteStream) where
  open B use {
    Out, In, contents, read_u32, read_string, write_u32, write_string, reader, reads_u32,
    reads_string, reader_good,
  }

  unfoldable pub parse_user_info : UserInfo → In → Bool × UserInfo × In
  parse_user_info v = checked B do
    user_id ← read_u32 v.user_id
    name ← read_string v.name
    nick_name ← read_string v.nick_name
    avatar_url ← read_string v.avatar_url
    title ← read_string v.title
    position ← read_string v.position
    role_status ← read_u32 v.role_status
    sex ← read_u32 v.sex
    depart_id ← read_u32 v.depart_id
    job_num ← read_u32 v.job_num
    telphone ← read_string v.telphone
    email ← read_string v.email
    pure (record v {
      user_id = user_id;
      name = name;
      nick_name = nick_name;
      avatar_url = avatar_url;
      title = title;
      position = position;
      role_status = role_status;
      sex = sex;
      depart_id = depart_id;
      job_num = job_num;
      telphone = telphone;
      email = email;
    })

  unfoldable pub serialize_user_info : UserInfo → Out → Bool × Out
  serialize_user_info v = os_checked B do
    write_u32 v.user_id
    write_string v.name
    write_string v.nick_name
    write_string v.avatar_url
    write_string v.title
    write_string v.position
    write_u32 v.role_status
    write_u32 v.sex
    write_u32 v.depart_id
    write_u32 v.job_num
    write_string v.telphone
    write_string v.email

  Reads-user_info :
      (v : UserInfo)
      → UserInfoInRange v
      → Reads B (object B parse_user_info new_user_info) (user_info_items v) (parsed_user_info v)
  unfolding parse_user_info user_info_items parsed_user_info
  Reads-user_info v h = record {
    at = λ rest. rw (
      reads_u32 _ _ _ h.user_id,
      reads_string _ _ _ h.name,
      reads_string _ _ _ h.nick_name,
      reads_string _ _ _ h.avatar_url,
      reads_string _ _ _ h.title,
      reads_string _ _ _ h.position,
      reads_u32 _ _ _ h.role_status,
      reads_u32 _ _ _ h.sex,
      reads_u32 _ _ _ h.depart_id,
      reads_u32 _ _ _ h.job_num,
      reads_string _ _ _ h.telphone,
      reads_string _ _ _ h.email,
    );
  }

  Writes-user_info :
      (v : UserInfo)
      → UserInfoInRange v
      → Writes B (put_object B serialize_user_info v) (user_info_items v)
  unfolding serialize_user_info user_info_items
  Writes-user_info v h =
      Writes-u32 B h.user_id
      ⨾ Writes-string B h.name
      ⨾ Writes-string B h.nick_name
      ⨾ Writes-string B h.avatar_url
      ⨾ Writes-string B h.title
      ⨾ Writes-string B h.position
      ⨾ Writes-u32 B h.role_status
      ⨾ Writes-u32 B h.sex
      ⨾ Writes-u32 B h.depart_id
      ⨾ Writes-u32 B h.job_num
      ⨾ Writes-string B h.telphone
      ⨾ Writes-string B h.email

  unfoldable pub parse_from_byte_stream : AllUserResponse → In → Bool × AllUserResponse × In
  parse_from_byte_stream m = checked B do
    from_user_id ← read_u32 m.from_user_id
    user_info_list ← parse_objectptr_array B parse_user_info new_user_info m.user_info_list
    pure (record m { from_user_id = from_user_id; user_info_list = user_info_list })

  unfoldable pub serialize_to_byte_stream : AllUserResponse → Out → Bool × Out
  serialize_to_byte_stream m =
      os_checked B do
        write_u32 m.from_user_id
        serialize_objectptr_array B serialize_user_info m.user_info_list

  pub reads :
      (m0 m : AllUserResponse)
      → InRange m
      → (rest : List Item)
      → parse_from_byte_stream m0 (reader (items m ++ rest)) ≡ (true, decode m0 m, reader rest)
  unfolding parse_from_byte_stream items decode
  reads m0 m h rest = rw (
    reads_u32 _ _ _ h.from_user_id,
    (Reads-objectptr_array B {P = UserInfoInRange} user_info_items parse_user_info new_user_info
          parsed_user_info Reads-user_info m0.user_info_list m.user_info_list h.user_info_list_size
          h.user_info_list).at
        rest,
    reader_good,
  )

  pub writes :
      (m : AllUserResponse)
      → InRange m
      → Writes B (λ os. (serialize_to_byte_stream m os).1) (items m)
  unfolding serialize_to_byte_stream items
  writes m h =
      Writes-u32 B h.from_user_id
      ⨾ Writes-objectptr_array B {P = UserInfoInRange} user_info_items serialize_user_info
          Writes-user_info m.user_info_list h.user_info_list_size h.user_info_list

  unfoldable pub pdu_class : PduClass B AllUserResponse
  unfolding byte_size parse_from_byte_stream serialize_to_byte_stream
  pdu_class = record {
    base = λ m. m.base;
    set_base = λ b m. record m { base = b };
    byte_size = byte_size;
    parse_from_byte_stream = parse_from_byte_stream;
    serialize_to_byte_stream = serialize_to_byte_stream;
  }

  unfoldable pub codec : Codec B pdu_class
  unfolding pdu_class decode
  codec = record {
    items = items;
    InRange = InRange;
    decode = decode;
    sizes = byte_size-items;
    reads = reads;
    writes = writes;
    result = λ m os. refl;
    base-decode = λ m0 m. refl;
  }

  -- A fitting message with attached data of the kind of the class arrives in a new object.
  pub all_user_response_transfer :
      (garbage : ℕ) (m : AllUserResponse)
      → Fitting B codec m
      → m.base.attach_data_type ≡ attach_db
      → Arrives B pdu_class m (create garbage) (delivered garbage m)
  unfolding codec delivered received has_attach_data
  all_user_response_transfer garbage m f same = roundtrip B codec (create garbage) m f same
