-- ===== src/Proto/MsgListResponse.antt =====
-- proto/msg_list_response.{h,cc}
use zattd.Base.{
  ℕ, ◌+◌, ◌<◌, ◌≡◌, refl, Bool, true, List, [], ◌∷◌, ◌++◌, map, arith, length, u32_mod, to_u32, All,
}
use zattd.Wire.Stream.{Item, u8, u32, str, size, ByteStream}
use zattd.Wire.Rules.{
  ◌>>=◌, ◌>>◌, pure, checked, os_checked, Reads, Writes, Writes-u8, Writes-u32, Writes-string, ◌⨾◌,
}
use zattd.Wire.Arrays.{
  array_items, object, put_object, parse_objectptr_array, serialize_objectptr_array,
  calculate_container_byte_size2, container_size2, Reads-objectptr_array, Writes-objectptr_array,
}
use zattd.Proto.BaseData.{ServerMsg, new_server_msg, ServerMsgInRange}
use zattd.Proto.MessageTypes.{message_msg_list_response}
use zattd.Proto.BasePdu.{
  BaseTeamTalkPdu, attach_db, new_base, base_byte_size, sizeof_string, has_attach_data, PduClass,
}
use zattd.Proto.Codec.{Arrives, Codec, received, Fitting, roundtrip}

unfoldable pub server_msg_byte_size : ServerMsg → ℕ
server_msg_byte_size v = to_u32 (
    4
    + sizeof_string v.from_name
    + sizeof_string v.from_nick_name
    + sizeof_string v.from_avatar_url
    + 4
    + 1
    + sizeof_string v.msg_data)

unfoldable pub server_msg_items : ServerMsg → List Item
server_msg_items v =
    u32 v.from_user_id
    ∷ str v.from_name
    ∷ str v.from_nick_name
    ∷ str v.from_avatar_url
    ∷ u32 v.create_time
    ∷ u8 v.msg_type
    ∷ str v.msg_data
    ∷ []

-- What arrives of a member of the array.
unfoldable pub parsed_server_msg : ServerMsg → ServerMsg
parsed_server_msg v = v

server_msg_byte_size-items :
    (v : ServerMsg) → server_msg_byte_size v ≡ to_u32 (size (server_msg_items v))
unfolding server_msg_byte_size server_msg_items
server_msg_byte_size-items v = omega arith

pub record MsgListResponse : Type 0 where
  pub base : BaseTeamTalkPdu
  pub request_cmd_id : ℕ
  pub from_user_id : ℕ
  pub to_user_id : ℕ
  pub msg_list : List ServerMsg

-- What the constructor passes to the base class.
abbrev pub message_type : ℕ
message_type = message_msg_list_response

-- The constructor; what it leaves uninitialised holds `garbage`.
unfoldable pub create : ℕ → MsgListResponse
unfolding new_base
create garbage = record {
  base = new_base attach_db garbage;
  request_cmd_id = garbage;
  from_user_id = garbage;
  to_user_id = garbage;
  msg_list = [];
}

unfoldable pub byte_size : MsgListResponse → ℕ
byte_size m =
    calculate_container_byte_size2 server_msg_byte_size (to_u32 (base_byte_size m.base + 4 + 4 + 4))
      m.msg_list

unfoldable pub items : MsgListResponse → List Item
items m =
    u32 m.request_cmd_id
    ∷ u32 m.from_user_id
    ∷ u32 m.to_user_id
    ∷ array_items server_msg_items m.msg_list

pub record InRange (m : MsgListResponse) : Type 0 where
  pub request_cmd_id : m.request_cmd_id < u32_mod
  pub from_user_id : m.from_user_id < u32_mod
  pub to_user_id : m.to_user_id < u32_mod
  pub msg_list : All ServerMsgInRange m.msg_list
  pub msg_list_size : length m.msg_list < u32_mod

unfoldable pub decode : MsgListResponse → MsgListResponse → MsgListResponse
decode m0 m = record m {
  base = m0.base;
  msg_list = m0.msg_list ++ map parsed_server_msg m.msg_list;
}

pub byte_size-items :
    (m : MsgListResponse) → byte_size m ≡ to_u32 (base_byte_size m.base + size (items m))
unfolding byte_size items
byte_size-items m = omega (
  arith,
  container_size2 server_msg_items server_msg_byte_size-items
      (to_u32 (base_byte_size m.base + 4 + 4 + 4)) m.msg_list,
)

-- What the receiver of `m` holds.
unfoldable pub delivered : ℕ → MsgListResponse → MsgListResponse
unfolding new_base create parsed_server_msg
delivered garbage m = record m {
  base = record (new_base attach_db garbage) { attach_data = m.base.attach_data };
  msg_list = map parsed_server_msg m.msg_list;
}

module _ (B : ByteStream) where
  open B use {
    Out, In, contents, read_u8, read_u32, read_string, write_u8, write_u32, write_string, reader,
    reads_u8, reads_u32, reads_string, reader_good,
  }

  unfoldable pub parse_server_msg : ServerMsg → In → Bool × ServerMsg × In
  parse_server_msg v = checked B do
    from_user_id ← read_u32 v.from_user_id
    from_name ← read_string v.from_name
    from_nick_name ← read_string v.from_nick_name
    from_avatar_url ← read_string v.from_avatar_url
    create_time ← read_u32 v.create_time
    msg_type ← read_u8 v.msg_type
    msg_data ← read_string v.msg_data
    pure (record v {
      from_user_id = from_user_id;
      from_name = from_name;
      from_nick_name = from_nick_name;
      from_avatar_url = from_avatar_url;
      create_time = create_time;
      msg_type = msg_type;
      msg_data = msg_data;
    })

  unfoldable pub serialize_server_msg : ServerMsg → Out → Bool × Out
  serialize_server_msg v = os_checked B do
    write_u32 v.from_user_id
    write_string v.from_name
    write_string v.from_nick_name
    write_string v.from_avatar_url
    write_u32 v.create_time
    write_u8 v.msg_type
    write_string v.msg_data

  Reads-server_msg :
      (v : ServerMsg)
      → ServerMsgInRange v
      → Reads B
          (object B parse_server_msg new_server_msg)
          (server_msg_items v)
          (parsed_server_msg v)
  unfolding parse_server_msg server_msg_items parsed_server_msg
  Reads-server_msg v h = record {
    at = λ rest. rw (
      reads_u32 _ _ _ h.from_user_id,
      reads_string _ _ _ h.from_name,
      reads_string _ _ _ h.from_nick_name,
      reads_string _ _ _ h.from_avatar_url,
      reads_u32 _ _ _ h.create_time,
      reads_u8 _ _ _ h.msg_type,
      reads_string _ _ _ h.msg_data,
    );
  }

  Writes-server_msg :
      (v : ServerMsg)
      → ServerMsgInRange v
      → Writes B (put_object B serialize_server_msg v) (server_msg_items v)
  unfolding serialize_server_msg server_msg_items
  Writes-server_msg v h =
      Writes-u32 B h.from_user_id
      ⨾ Writes-string B h.from_name
      ⨾ Writes-string B h.from_nick_name
      ⨾ Writes-string B h.from_avatar_url
      ⨾ Writes-u32 B h.create_time
      ⨾ Writes-u8 B h.msg_type
      ⨾ Writes-string B h.msg_data

  unfoldable pub parse_from_byte_stream : MsgListResponse → In → Bool × MsgListResponse × In
  parse_from_byte_stream m = checked B do
    request_cmd_id ← read_u32 m.request_cmd_id
    from_user_id ← read_u32 m.from_user_id
    to_user_id ← read_u32 m.to_user_id
    msg_list ← parse_objectptr_array B parse_server_msg new_server_msg m.msg_list
    pure (record m {
      request_cmd_id = request_cmd_id;
      from_user_id = from_user_id;
      to_user_id = to_user_id;
      msg_list = msg_list;
    })

  unfoldable pub serialize_to_byte_stream : MsgListResponse → Out → Bool × Out
  serialize_to_byte_stream m = os_checked B do
    write_u32 m.request_cmd_id
    write_u32 m.from_user_id
    write_u32 m.to_user_id
    serialize_objectptr_array B serialize_server_msg m.msg_list

  pub reads :
      (m0 m : MsgListResponse)
      → InRange m
      → (rest : List Item)
      → parse_from_byte_stream m0 (reader (items m ++ rest)) ≡ (true, decode m0 m, reader rest)
  unfolding parse_from_byte_stream items decode
  reads m0 m h rest = rw (
    reads_u32 _ _ _ h.request_cmd_id,
    reads_u32 _ _ _ h.from_user_id,
    reads_u32 _ _ _ h.to_user_id,
    (Reads-objectptr_array B {P = ServerMsgInRange} server_msg_items parse_server_msg new_server_msg
          parsed_server_msg Reads-server_msg m0.msg_list m.msg_list h.msg_list_size h.msg_list).at
        rest,
    reader_good,
  )

  pub writes :
      (m : MsgListResponse)
      → InRange m
      → Writes B (λ os. (serialize_to_byte_stream m os).1) (items m)
  unfolding serialize_to_byte_stream items
  writes m h =
      Writes-u32 B h.request_cmd_id
      ⨾ Writes-u32 B h.from_user_id
      ⨾ Writes-u32 B h.to_user_id
      ⨾ Writes-objectptr_array B {P = ServerMsgInRange} server_msg_items serialize_server_msg
          Writes-server_msg m.msg_list h.msg_list_size h.msg_list

  unfoldable pub pdu_class : PduClass B MsgListResponse
  unfolding byte_size parse_from_byte_stream serialize_to_byte_stream
  pdu_class = record {
    base = λ m. m.base;
    set_base = λ b m. record m { base = b };
    byte_size = byte_size;
    parse_from_byte_stream = parse_from_byte_stream;
    serialize_to_byte_stream = serialize_to_byte_stream;
  }

  unfoldable pub codec : Codec B pdu_class
  unfolding pdu_class decode
  codec = record {
    items = items;
    InRange = InRange;
    decode = decode;
    sizes = byte_size-items;
    reads = reads;
    writes = writes;
    result = λ m os. refl;
    base-decode = λ m0 m. refl;
  }

  -- A MsgListResponse whose fields are in range, whose bytes are fewer than 2^32 and whose
  -- attached data are of the kind of the class is written by SerializeToArray into a buffer of its
  -- ByteSize(), and ParseFromArray of those bytes into a new object succeeds and leaves the fields
  -- that the class sends.
  pub msg_list_response_transfer :
      (garbage : ℕ) (m : MsgListResponse)
      → Fitting B codec m
      → m.base.attach_data_type ≡ attach_db
      → Arrives B pdu_class m (create garbage) (delivered garbage m)
  unfolding codec delivered received has_attach_data
  msg_list_response_transfer garbage m f same = roundtrip B codec (create garbage) m f same
