-- ===== src/Proto/GroupDialogListResponse.antt =====
-- proto/group_dialog_list_response.{h,cc}
use zattd.Base.{
  ℕ, ◌+◌, ◌<◌, ◌≡◌, refl, Bool, true, List, [], ◌∷◌, ◌++◌, map, arith, length, u32_mod, to_u32, All,
}
use zattd.Wire.Stream.{Item, u32, str, size, ByteStream}
use zattd.Wire.Rules.{
  ◌>>=◌, ◌>>◌, pure, checked, os_checked, Reads, Writes, Writes-u32, Writes-string, ◌⨾◌,
}
use zattd.Wire.Arrays.{
  array_items, uint32_items, object, put_object, parse_objectptr_array, parse_basictype_array,
  serialize_objectptr_array, serialize_basictype_array, calculate_container_byte_size2,
  calculate_container_byte_size, container_size, container_size2, Reads-objectptr_array,
  Writes-objectptr_array, Reads-basictype_array, Writes-basictype_array,
}
use zattd.Proto.BaseData.{GroupInfo, new_group_info, GroupInfoInRange}
use zattd.Proto.MessageTypes.{message_group_dialog_list_response}
use zattd.Proto.BasePdu.{
  BaseTeamTalkPdu, attach_db, new_base, base_byte_size, sizeof_string, has_attach_data, PduClass,
}
use zattd.Proto.Codec.{Arrives, Codec, received, Fitting, roundtrip}

unfoldable pub group_info_byte_size : GroupInfo → ℕ
group_info_byte_size v = to_u32 (
    4
    + sizeof_string v.group_name
    + sizeof_string v.group_avatar
    + 4
    + 4
    + 4
    + calculate_container_byte_size v.group_memeber_list)

unfoldable pub group_info_items : GroupInfo → List Item
group_info_items v =
    u32 v.group_id
    ∷ str v.group_name
    ∷ str v.group_avatar
    ∷ u32 v.group_type
    ∷ u32 v.group_creator_id
    ∷ u32 v.group_updated
    ∷ array_items uint32_items v.group_memeber_list

-- What arrives of a member of the array.
unfoldable pub parsed_group_info : GroupInfo → GroupInfo
parsed_group_info v = v

group_info_byte_size-items :
    (v : GroupInfo) → group_info_byte_size v ≡ to_u32 (size (group_info_items v))
unfolding group_info_byte_size group_info_items
group_info_byte_size-items v = omega (arith, container_size v.group_memeber_list)

pub record GroupDialogListResponse : Type 0 where
  pub base : BaseTeamTalkPdu
  pub req_user_id : ℕ
  pub group_list : List GroupInfo

-- What the constructor passes to the base class.
abbrev pub message_type : ℕ
message_type = message_group_dialog_list_response

-- The constructor; what it leaves uninitialised holds `garbage`.
unfoldable pub create : ℕ → GroupDialogListResponse
unfolding new_base
create garbage = record {
  base = new_base attach_db garbage;
  req_user_id = garbage;
  group_list = [];
}

unfoldable pub byte_size : GroupDialogListResponse → ℕ
byte_size m =
    calculate_container_byte_size2 group_info_byte_size (to_u32 (base_byte_size m.base + 4))
      m.group_list

unfoldable pub items : GroupDialogListResponse → List Item
items m = u32 m.req_user_id ∷ array_items group_info_items m.group_list

pub record InRange (m : GroupDialogListResponse) : Type 0 where
  pub req_user_id : m.req_user_id < u32_mod
  pub group_list : All GroupInfoInRange m.group_list
  pub group_list_size : length m.group_list < u32_mod

unfoldable pub decode : GroupDialogListResponse → GroupDialogListResponse → GroupDialogListResponse
decode m0 m = record m {
  base = m0.base;
  group_list = m0.group_list ++ map parsed_group_info m.group_list;
}

pub byte_size-items :
    (m : GroupDialogListResponse) → byte_size m ≡ to_u32 (base_byte_size m.base + size (items m))
unfolding byte_size items
byte_size-items m = omega (
  arith,
  container_size2 group_info_items group_info_byte_size-items (to_u32 (base_byte_size m.base + 4))
      m.group_list,
)

-- What the receiver of `m` holds.
unfoldable pub delivered : ℕ → GroupDialogListResponse → GroupDialogListResponse
unfolding new_base create parsed_group_info
delivered garbage m = record m {
  base = record (new_base attach_db garbage) { attach_data = m.base.attach_data };
  group_list = map parsed_group_info m.group_list;
}

module _ (B : ByteStream) where
  open B use {
    Out, In, contents, read_u32, read_string, write_u32, write_string, reader, reads_u32,
    reads_string, reader_good,
  }

  unfoldable pub parse_group_info : GroupInfo → In → Bool × GroupInfo × In
  parse_group_info v = checked B do
    group_id ← read_u32 v.group_id
    group_name ← read_string v.group_name
    group_avatar ← read_string v.group_avatar
    group_type ← read_u32 v.group_type
    group_creator_id ← read_u32 v.group_creator_id
    group_updated ← read_u32 v.group_updated
    group_memeber_list ← parse_basictype_array B v.group_memeber_list
    pure (record v {
      group_id = group_id;
      group_name = group_name;
      group_avatar = group_avatar;
      group_type = group_type;
      group_creator_id = group_creator_id;
      group_updated = group_updated;
      group_memeber_list = group_memeber_list;
    })

  unfoldable pub serialize_group_info : GroupInfo → Out → Bool × Out
  serialize_group_info v = os_checked B do
    write_u32 v.group_id
    write_string v.group_name
    write_string v.group_avatar
    write_u32 v.group_type
    write_u32 v.group_creator_id
    write_u32 v.group_updated
    serialize_basictype_array B v.group_memeber_list

  Reads-group_info :
      (v : GroupInfo)
      → GroupInfoInRange v
      → Reads B
          (object B parse_group_info new_group_info)
          (group_info_items v)
          (parsed_group_info v)
  unfolding parse_group_info group_info_items parsed_group_info
  Reads-group_info v h = record {
    at = λ rest. rw (
      reads_u32 _ _ _ h.group_id,
      reads_string _ _ _ h.group_name,
      reads_string _ _ _ h.group_avatar,
      reads_u32 _ _ _ h.group_type,
      reads_u32 _ _ _ h.group_creator_id,
      reads_u32 _ _ _ h.group_updated,
      (Reads-basictype_array B new_group_info.group_memeber_list v.group_memeber_list
            h.group_memeber_list_size h.group_memeber_list).at
          rest,
    );
  }

  Writes-group_info :
      (v : GroupInfo)
      → GroupInfoInRange v
      → Writes B (put_object B serialize_group_info v) (group_info_items v)
  unfolding serialize_group_info group_info_items
  Writes-group_info v h =
      Writes-u32 B h.group_id
      ⨾ Writes-string B h.group_name
      ⨾ Writes-string B h.group_avatar
      ⨾ Writes-u32 B h.group_type
      ⨾ Writes-u32 B h.group_creator_id
      ⨾ Writes-u32 B h.group_updated
      ⨾ Writes-basictype_array B v.group_memeber_list h.group_memeber_list_size h.group_memeber_list

  unfoldable pub parse_from_byte_stream :
      GroupDialogListResponse → In → Bool × GroupDialogListResponse × In
  parse_from_byte_stream m = checked B do
    req_user_id ← read_u32 m.req_user_id
    group_list ← parse_objectptr_array B parse_group_info new_group_info m.group_list
    pure (record m { req_user_id = req_user_id; group_list = group_list })

  unfoldable pub serialize_to_byte_stream : GroupDialogListResponse → Out → Bool × Out
  serialize_to_byte_stream m =
      os_checked B
        do write_u32 m.req_user_id; serialize_objectptr_array B serialize_group_info m.group_list

  pub reads :
      (m0 m : GroupDialogListResponse)
      → InRange m
      → (rest : List Item)
      → parse_from_byte_stream m0 (reader (items m ++ rest)) ≡ (true, decode m0 m, reader rest)
  unfolding parse_from_byte_stream items decode
  reads m0 m h rest = rw (
    reads_u32 _ _ _ h.req_user_id,
    (Reads-objectptr_array B {P = GroupInfoInRange} group_info_items parse_group_info new_group_info
          parsed_group_info Reads-group_info m0.group_list m.group_list h.group_list_size
          h.group_list).at
        rest,
    reader_good,
  )

  pub writes :
      (m : GroupDialogListResponse)
      → InRange m
      → Writes B (λ os. (serialize_to_byte_stream m os).1) (items m)
  unfolding serialize_to_byte_stream items
  writes m h =
      Writes-u32 B h.req_user_id
      ⨾ Writes-objectptr_array B {P = GroupInfoInRange} group_info_items serialize_group_info
          Writes-group_info m.group_list h.group_list_size h.group_list

  unfoldable pub pdu_class : PduClass B GroupDialogListResponse
  unfolding byte_size parse_from_byte_stream serialize_to_byte_stream
  pdu_class = record {
    base = λ m. m.base;
    set_base = λ b m. record m { base = b };
    byte_size = byte_size;
    parse_from_byte_stream = parse_from_byte_stream;
    serialize_to_byte_stream = serialize_to_byte_stream;
  }

  unfoldable pub codec : Codec B pdu_class
  unfolding pdu_class decode
  codec = record {
    items = items;
    InRange = InRange;
    decode = decode;
    sizes = byte_size-items;
    reads = reads;
    writes = writes;
    result = λ m os. refl;
    base-decode = λ m0 m. refl;
  }

  -- A GroupDialogListResponse whose fields are in range, whose bytes are fewer than 2^32 and whose
  -- attached data are of the kind of the class is written by SerializeToArray into a buffer of its
  -- ByteSize(), and ParseFromArray of those bytes into a new object succeeds and leaves the fields
  -- that the class sends.
  pub group_dialog_list_response_transfer :
      (garbage : ℕ) (m : GroupDialogListResponse)
      → Fitting B codec m
      → m.base.attach_data_type ≡ attach_db
      → Arrives B pdu_class m (create garbage) (delivered garbage m)
  unfolding codec delivered received has_attach_data
  group_dialog_list_response_transfer garbage m f same = roundtrip B codec (create garbage) m f same
