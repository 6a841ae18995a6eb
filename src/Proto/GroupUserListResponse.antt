-- ===== src/Proto/GroupUserListResponse.antt =====
-- proto/group_user_list_response.{h,cc}
use zattd.Base.{
  ℕ, ◌+◌, ◌<◌, ◌≡◌, refl, Bool, true, List, [], ◌∷◌, ◌++◌, arith, length, u32_mod, to_u32, All,
}
use zattd.Wire.Stream.{Item, u32, str, size, ByteStream}
use zattd.Wire.Rules.{
  ◌>>=◌, ◌>>◌, pure, checked, os_checked, Writes, Writes-u32, Writes-string, ◌⨾◌,
}
use zattd.Wire.Arrays.{
  array_items, uint32_items, IsUint32, parse_basictype_array, serialize_basictype_array,
  calculate_container_byte_size, container_size, Reads-basictype_array, Writes-basictype_array,
}
use zattd.Proto.MessageTypes.{message_group_user_list_response}
use zattd.Proto.BasePdu.{
  BaseTeamTalkPdu, attach_db, new_base, base_byte_size, sizeof_string, has_attach_data, PduClass,
}
use zattd.Proto.Codec.{Arrives, Codec, received, Fitting, roundtrip}

pub record GroupUserListResponse : Type 0 where
  pub base : BaseTeamTalkPdu
  pub req_user_id : ℕ
  pub group_id : ℕ
  pub result : ℕ
  pub group_name : List ℕ
  pub group_avatar : List ℕ
  pub group_type : ℕ
  pub group_creator_id : ℕ
  pub user_list : List ℕ

-- What the constructor passes to the base class.
abbrev pub message_type : ℕ
message_type = message_group_user_list_response

-- The constructor; what it leaves uninitialised holds `garbage`.
unfoldable pub create : ℕ → GroupUserListResponse
unfolding new_base
create garbage = record {
  base = new_base attach_db garbage;
  req_user_id = garbage;
  group_id = garbage;
  result = garbage;
  group_name = [];
  group_avatar = [];
  group_type = garbage;
  group_creator_id = garbage;
  user_list = [];
}

unfoldable pub byte_size : GroupUserListResponse → ℕ
byte_size m = to_u32 (
    base_byte_size m.base
    + 4
    + 4
    + 4
    + sizeof_string m.group_name
    + sizeof_string m.group_avatar
    + 4
    + 4
    + calculate_container_byte_size m.user_list)

unfoldable pub items : GroupUserListResponse → List Item
items m =
    u32 m.req_user_id
    ∷ u32 m.group_id
    ∷ u32 m.result
    ∷ str m.group_name
    ∷ str m.group_avatar
    ∷ u32 m.group_type
    ∷ u32 m.group_creator_id
    ∷ array_items uint32_items m.user_list

pub record InRange (m : GroupUserListResponse) : Type 0 where
  pub req_user_id : m.req_user_id < u32_mod
  pub group_id : m.group_id < u32_mod
  pub result : m.result < u32_mod
  pub group_name : length m.group_name < u32_mod
  pub group_avatar : length m.group_avatar < u32_mod
  pub group_type : m.group_type < u32_mod
  pub group_creator_id : m.group_creator_id < u32_mod
  pub user_list : All IsUint32 m.user_list
  pub user_list_size : length m.user_list < u32_mod

unfoldable pub decode : GroupUserListResponse → GroupUserListResponse → GroupUserListResponse
decode m0 m = record m { base = m0.base; user_list = m0.user_list ++ m.user_list }

pub byte_size-items :
    (m : GroupUserListResponse) → byte_size m ≡ to_u32 (base_byte_size m.base + size (items m))
unfolding byte_size items
byte_size-items m = omega (arith, container_size m.user_list)

-- What the receiver of `m` holds.
unfoldable pub delivered : ℕ → GroupUserListResponse → GroupUserListResponse
unfolding new_base create
delivered garbage m = record m {
  base = record (new_base attach_db garbage) { attach_data = m.base.attach_data };
}

module _ (B : ByteStream) where
  open B use {
    Out, In, contents, read_u32, read_string, write_u32, write_string, reader, reads_u32,
    reads_string, reader_good,
  }

  unfoldable pub parse_from_byte_stream :
      GroupUserListResponse → In → Bool × GroupUserListResponse × In
  parse_from_byte_stream m = checked B do
    req_user_id ← read_u32 m.req_user_id
    group_id ← read_u32 m.group_id
    result ← read_u32 m.result
    group_name ← read_string m.group_name
    group_avatar ← read_string m.group_avatar
    group_type ← read_u32 m.group_type
    group_creator_id ← read_u32 m.group_creator_id
    user_list ← parse_basictype_array B m.user_list
    pure (record m {
      req_user_id = req_user_id;
      group_id = group_id;
      result = result;
      group_name = group_name;
      group_avatar = group_avatar;
      group_type = group_type;
      group_creator_id = group_creator_id;
      user_list = user_list;
    })

  unfoldable pub serialize_to_byte_stream : GroupUserListResponse → Out → Bool × Out
  serialize_to_byte_stream m = os_checked B do
    write_u32 m.req_user_id
    write_u32 m.group_id
    write_u32 m.result
    write_string m.group_name
    write_string m.group_avatar
    write_u32 m.group_type
    write_u32 m.group_creator_id
    serialize_basictype_array B m.user_list

  pub reads :
      (m0 m : GroupUserListResponse)
      → InRange m
      → (rest : List Item)
      → parse_from_byte_stream m0 (reader (items m ++ rest)) ≡ (true, decode m0 m, reader rest)
  unfolding parse_from_byte_stream items decode
  reads m0 m h rest = rw (
    reads_u32 _ _ _ h.req_user_id,
    reads_u32 _ _ _ h.group_id,
    reads_u32 _ _ _ h.result,
    reads_string _ _ _ h.group_name,
    reads_string _ _ _ h.group_avatar,
    reads_u32 _ _ _ h.group_type,
    reads_u32 _ _ _ h.group_creator_id,
    (Reads-basictype_array B m0.user_list m.user_list h.user_list_size h.user_list).at rest,
    reader_good,
  )

  pub writes :
      (m : GroupUserListResponse)
      → InRange m
      → Writes B (λ os. (serialize_to_byte_stream m os).1) (items m)
  unfolding serialize_to_byte_stream items
  writes m h =
      Writes-u32 B h.req_user_id
      ⨾ Writes-u32 B h.group_id
      ⨾ Writes-u32 B h.result
      ⨾ Writes-string B h.group_name
      ⨾ Writes-string B h.group_avatar
      ⨾ Writes-u32 B h.group_type
      ⨾ Writes-u32 B h.group_creator_id
      ⨾ Writes-basictype_array B m.user_list h.user_list_size h.user_list

  unfoldable pub pdu_class : PduClass B GroupUserListResponse
  unfolding byte_size parse_from_byte_stream serialize_to_byte_stream
  pdu_class = record {
    base = λ m. m.base;
    set_base = λ b m. record m { base = b };
    byte_size = byte_size;
    parse_from_byte_stream = parse_from_byte_stream;
    serialize_to_byte_stream = serialize_to_byte_stream;
  }

  unfoldable pub codec : Codec B pdu_class
  unfolding pdu_class decode
  codec = record {
    items = items;
    InRange = InRange;
    decode = decode;
    sizes = byte_size-items;
    reads = reads;
    writes = writes;
    result = λ m os. refl;
    base-decode = λ m0 m. refl;
  }

  -- A GroupUserListResponse whose fields are in range, whose bytes are fewer than 2^32 and whose
  -- attached data are of the kind of the class is written by SerializeToArray into a buffer of its
  -- ByteSize(), and ParseFromArray of those bytes into a new object succeeds and leaves the fields
  -- that the class sends.
  pub group_user_list_response_transfer :
      (garbage : ℕ) (m : GroupUserListResponse)
      → Fitting B codec m
      → m.base.attach_data_type ≡ attach_db
      → Arrives B pdu_class m (create garbage) (delivered garbage m)
  unfolding codec delivered received has_attach_data
  group_user_list_response_transfer garbage m f same = roundtrip B codec (create garbage) m f same
