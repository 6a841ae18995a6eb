-- ===== src/Proto/GroupMsgListResponse.antt =====
-- proto/group_msg_list_response.{h,cc}
use zattd.Base.{
  ℕ, ◌+◌, ◌<◌, ◌≡◌, refl, Bool, true, List, [], ◌∷◌, ◌++◌, map, arith, length, u32_mod, to_u32, All,
}
use zattd.Wire.Stream.{Item, u32, str, size, ByteStream}
use zattd.Wire.Rules.{
  ◌>>=◌, ◌>>◌, pure, checked, os_checked, Reads, Writes, Writes-u32, Writes-string, ◌⨾◌,
}
use zattd.Wire.Arrays.{
  array_items, object, put_object, parse_objectptr_array, serialize_objectptr_array,
  calculate_container_byte_size2, container_size2, Reads-objectptr_array, Writes-objectptr_array,
}
use zattd.Proto.BaseData.{GroupMsg, new_group_msg, GroupMsgInRange}
use zattd.Proto.MessageTypes.{message_group_msg_list_response}
use zattd.Proto.BasePdu.{
  BaseTeamTalkPdu, attach_db, new_base, base_byte_size, sizeof_string, has_attach_data, PduClass,
}
use zattd.Proto.Codec.{Arrives, Codec, received, Fitting, roundtrip}

unfoldable pub group_msg_byte_size : GroupMsg → ℕ
group_msg_byte_size v = to_u32 (4 + 4 + sizeof_string v.msg_content)

unfoldable pub group_msg_items : GroupMsg → List Item
group_msg_items v = u32 v.from_user_id ∷ u32 v.create_time ∷ str v.msg_content ∷ []

-- What arrives of a member of the array.
unfoldable pub parsed_group_msg : GroupMsg → GroupMsg
parsed_group_msg v = v

group_msg_byte_size-items :
    (v : GroupMsg) → group_msg_byte_size v ≡ to_u32 (size (group_msg_items v))
unfolding group_msg_byte_size group_msg_items
group_msg_byte_size-items v = omega arith

pub record GroupMsgListResponse : Type 0 where
  pub base : BaseTeamTalkPdu
  pub req_user_id : ℕ
  pub request_cmd_id : ℕ
  pub group_id : ℕ
  pub msg_list : List GroupMsg

-- What the constructor passes to the base class.
abbrev pub message_type : ℕ
message_type = message_group_msg_list_response

-- The constructor; what it leaves uninitialised holds `garbage`.
unfoldable pub create : ℕ → GroupMsgListResponse
unfolding new_base
create garbage = record {
  base = new_base attach_db garbage;
  req_user_id = garbage;
  request_cmd_id = garbage;
  group_id = garbage;
  msg_list = [];
}

unfoldable pub byte_size : GroupMsgListResponse → ℕ
byte_size m =
    calculate_container_byte_size2 group_msg_byte_size (to_u32 (base_byte_size m.base + 4 + 4 + 4))
      m.msg_list

unfoldable pub items : GroupMsgListResponse → List Item
items m =
    u32 m.req_user_id
    ∷ u32 m.request_cmd_id
    ∷ u32 m.group_id
    ∷ array_items group_msg_items m.msg_list

pub record InRange (m : GroupMsgListResponse) : Type 0 where
  pub req_user_id : m.req_user_id < u32_mod
  pub request_cmd_id : m.request_cmd_id < u32_mod
  pub group_id : m.group_id < u32_mod
  pub msg_list : All GroupMsgInRange m.msg_list
  pub msg_list_size : length m.msg_list < u32_mod

unfoldable pub decode : GroupMsgListResponse → GroupMsgListResponse → GroupMsgListResponse
decode m0 m = record m { base = m0.base; msg_list = m0.msg_list ++ map parsed_group_msg m.msg_list }

pub byte_size-items :
    (m : GroupMsgListResponse) → byte_size m ≡ to_u32 (base_byte_size m.base + size (items m))
unfolding byte_size items
byte_size-items m = omega (
  arith,
  container_size2 group_msg_items group_msg_byte_size-items
      (to_u32 (base_byte_size m.base + 4 + 4 + 4)) m.msg_list,
)

-- What the receiver of `m` holds.
unfoldable pub delivered : ℕ → GroupMsgListResponse → GroupMsgListResponse
unfolding new_base create parsed_group_msg
delivered garbage m = record m {
  base = record (new_base attach_db garbage) { attach_data = m.base.attach_data };
  msg_list = map parsed_group_msg m.msg_list;
}

module _ (B : ByteStream) where
  open B use {
    Out, In, contents, read_u32, read_string, write_u32, write_string, reader, reads_u32,
    reads_string, reader_good,
  }

  unfoldable pub parse_group_msg : GroupMsg → In → Bool × GroupMsg × In
  parse_group_msg v = checked B do
    from_user_id ← read_u32 v.from_user_id
    create_time ← read_u32 v.create_time
    msg_content ← read_string v.msg_content
    pure (record v {
      from_user_id = from_user_id;
      create_time = create_time;
      msg_content = msg_content;
    })

  unfoldable pub serialize_group_msg : GroupMsg → Out → Bool × Out
  serialize_group_msg v =
      os_checked B do write_u32 v.from_user_id; write_u32 v.create_time; write_string v.msg_content

  Reads-group_msg :
      (v : GroupMsg)
      → GroupMsgInRange v
      → Reads B (object B parse_group_msg new_group_msg) (group_msg_items v) (parsed_group_msg v)
  unfolding parse_group_msg group_msg_items parsed_group_msg
  Reads-group_msg v h = record {
    at = λ rest. rw (
      reads_u32 _ _ _ h.from_user_id,
      reads_u32 _ _ _ h.create_time,
      reads_string _ _ _ h.msg_content,
    );
  }

  Writes-group_msg :
      (v : GroupMsg)
      → GroupMsgInRange v
      → Writes B (put_object B serialize_group_msg v) (group_msg_items v)
  unfolding serialize_group_msg group_msg_items
  Writes-group_msg v h =
      Writes-u32 B h.from_user_id ⨾ Writes-u32 B h.create_time ⨾ Writes-string B h.msg_content

  unfoldable pub parse_from_byte_stream :
      GroupMsgListResponse → In → Bool × GroupMsgListResponse × In
  parse_from_byte_stream m = checked B do
    req_user_id ← read_u32 m.req_user_id
    request_cmd_id ← read_u32 m.request_cmd_id
    group_id ← read_u32 m.group_id
    msg_list ← parse_objectptr_array B parse_group_msg new_group_msg m.msg_list
    pure (record m {
      req_user_id = req_user_id;
      request_cmd_id = request_cmd_id;
      group_id = group_id;
      msg_list = msg_list;
    })

  unfoldable pub serialize_to_byte_stream : GroupMsgListResponse → Out → Bool × Out
  serialize_to_byte_stream m = os_checked B do
    write_u32 m.req_user_id
    write_u32 m.request_cmd_id
    write_u32 m.group_id
    serialize_objectptr_array B serialize_group_msg m.msg_list

  pub reads :
      (m0 m : GroupMsgListResponse)
      → InRange m
      → (rest : List Item)
      → parse_from_byte_stream m0 (reader (items m ++ rest)) ≡ (true, decode m0 m, reader rest)
  unfolding parse_from_byte_stream items decode
  reads m0 m h rest = rw (
    reads_u32 _ _ _ h.req_user_id,
    reads_u32 _ _ _ h.request_cmd_id,
    reads_u32 _ _ _ h.group_id,
    (Reads-objectptr_array B {P = GroupMsgInRange} group_msg_items parse_group_msg new_group_msg
          parsed_group_msg Reads-group_msg m0.msg_list m.msg_list h.msg_list_size h.msg_list).at
        rest,
    reader_good,
  )

  pub writes :
      (m : GroupMsgListResponse)
      → InRange m
      → Writes B (λ os. (serialize_to_byte_stream m os).1) (items m)
  unfolding serialize_to_byte_stream items
  writes m h =
      Writes-u32 B h.req_user_id
      ⨾ Writes-u32 B h.request_cmd_id
      ⨾ Writes-u32 B h.group_id
      ⨾ Writes-objectptr_array B {P = GroupMsgInRange} group_msg_items serialize_group_msg
          Writes-group_msg m.msg_list h.msg_list_size h.msg_list

  unfoldable pub pdu_class : PduClass B GroupMsgListResponse
  unfolding byte_size parse_from_byte_stream serialize_to_byte_stream
  pdu_class = record {
    base = λ m. m.base;
    set_base = λ b m. record m { base = b };
    byte_size = byte_size;
    parse_from_byte_stream = parse_from_byte_stream;
    serialize_to_byte_stream = serialize_to_byte_stream;
  }

  unfoldable pub codec : Codec B pdu_class
  unfolding pdu_class decode
  codec = record {
    items = items;
    InRange = InRange;
    decode = decode;
    sizes = byte_size-items;
    reads = reads;
    writes = writes;
    result = λ m os. refl;
    base-decode = λ m0 m. refl;
  }

  -- A GroupMsgListResponse whose fields are in range, whose bytes are fewer than 2^32 and whose
  -- attached data are of the kind of the class is written by SerializeToArray into a buffer of its
  -- ByteSize(), and ParseFromArray of those bytes into a new object succeeds and leaves the fields
  -- that the class sends.
  pub group_msg_list_response_transfer :
      (garbage : ℕ) (m : GroupMsgListResponse)
      → Fitting B codec m
      → m.base.attach_data_type ≡ attach_db
      → Arrives B pdu_class m (create garbage) (delivered garbage m)
  unfolding codec delivered received has_attach_data
  group_msg_list_response_transfer garbage m f same = roundtrip B codec (create garbage) m f same
