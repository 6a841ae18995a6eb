-- ===== src/Proto/GroupChangeMemberRequest.antt =====
-- proto/group_change_member_request.{h,cc}
use zattd.Base.{
  ℕ, ◌+◌, ◌<◌, ◌≡◌, refl, Bool, true, List, [], ◌∷◌, ◌++◌, arith, length, u32_mod, to_u32, All,
}
use zattd.Wire.Stream.{Item, u32, size, ByteStream}
use zattd.Wire.Rules.{◌>>=◌, ◌>>◌, pure, checked, os_checked, Writes, Writes-u32, ◌⨾◌}
use zattd.Wire.Arrays.{
  array_items, uint32_items, IsUint32, parse_basictype_array, serialize_basictype_array,
  calculate_container_byte_size, container_size, Reads-basictype_array, Writes-basictype_array,
}
use zattd.Proto.MessageTypes.{message_group_change_member_request}
use zattd.Proto.BasePdu.{
  BaseTeamTalkPdu, attach_db, new_base, base_byte_size, has_attach_data, PduClass,
}
use zattd.Proto.Codec.{Arrives, Codec, received, Fitting, roundtrip}

pub record GroupChangeMemberRequest : Type 0 where
  pub base : BaseTeamTalkPdu
  pub change_type : ℕ
  pub req_user_id : ℕ
  pub group_id : ℕ
  pub user_list : List ℕ

-- What the constructor passes to the base class.
abbrev pub message_type : ℕ
message_type = message_group_change_member_request

-- The constructor; what it leaves uninitialised holds `garbage`.
unfoldable pub create : ℕ → GroupChangeMemberRequest
unfolding new_base
create garbage = record {
  base = new_base attach_db garbage;
  change_type = garbage;
  req_user_id = garbage;
  group_id = garbage;
  user_list = [];
}

unfoldable pub byte_size : GroupChangeMemberRequest → ℕ
byte_size m = to_u32 (base_byte_size m.base + 4 + 4 + 4 + calculate_container_byte_size m.user_list)

unfoldable pub items : GroupChangeMemberRequest → List Item
items m =
    u32 m.change_type ∷ u32 m.req_user_id ∷ u32 m.group_id ∷ array_items uint32_items m.user_list

pub record InRange (m : GroupChangeMemberRequest) : Type 0 where
  pub change_type : m.change_type < u32_mod
  pub req_user_id : m.req_user_id < u32_mod
  pub group_id : m.group_id < u32_mod
  pub user_list : All IsUint32 m.user_list
  pub user_list_size : length m.user_list < u32_mod

unfoldable pub decode :
    GroupChangeMemberRequest → GroupChangeMemberRequest → GroupChangeMemberRequest
decode m0 m = record m {
  base = m0.base;
  change_type = m0.change_type;
  user_list = m0.user_list ++ m.user_list;
}

pub byte_size-items :
    (m : GroupChangeMemberRequest) → byte_size m ≡ to_u32 (base_byte_size m.base + size (items m))
unfolding byte_size items
byte_size-items m = omega (arith, container_size m.user_list)

-- What the receiver of `m` holds.
unfoldable pub delivered : ℕ → GroupChangeMemberRequest → GroupChangeMemberRequest
unfolding new_base create
delivered garbage m = record m {
  base = record (new_base attach_db garbage) { attach_data = m.base.attach_data };
  change_type = (create garbage).change_type;
}

module _ (B : ByteStream) where
  open B use {Out, In, contents, read_u32, write_u32, reader, reads_u32, reader_good}

  unfoldable pub parse_from_byte_stream :
      GroupChangeMemberRequest → In → Bool × GroupChangeMemberRequest × In
  parse_from_byte_stream m = checked B do
    req_user_id ← read_u32 m.req_user_id
    req_user_id ← read_u32 req_user_id
    group_id ← read_u32 m.group_id
    user_list ← parse_basictype_array B m.user_list
    pure (record m { req_user_id = req_user_id; group_id = group_id; user_list = user_list })

  unfoldable pub serialize_to_byte_stream : GroupChangeMemberRequest → Out → Bool × Out
  serialize_to_byte_stream m = os_checked B do
    write_u32 m.change_type
    write_u32 m.req_user_id
    write_u32 m.group_id
    serialize_basictype_array B m.user_list

  pub reads :
      (m0 m : GroupChangeMemberRequest)
      → InRange m
      → (rest : List Item)
      → parse_from_byte_stream m0 (reader (items m ++ rest)) ≡ (true, decode m0 m, reader rest)
  unfolding parse_from_byte_stream items decode
  reads m0 m h rest = rw (
    reads_u32 _ _ _ h.change_type,
    reads_u32 _ _ _ h.req_user_id,
    reads_u32 _ _ _ h.group_id,
    (Reads-basictype_array B m0.user_list m.user_list h.user_list_size h.user_list).at rest,
    reader_good,
  )

  pub writes :
      (m : GroupChangeMemberRequest)
      → InRange m
      → Writes B (λ os. (serialize_to_byte_stream m os).1) (items m)
  unfolding serialize_to_byte_stream items
  writes m h =
      Writes-u32 B h.change_type
      ⨾ Writes-u32 B h.req_user_id
      ⨾ Writes-u32 B h.group_id
      ⨾ Writes-basictype_array B m.user_list h.user_list_size h.user_list

  unfoldable pub pdu_class : PduClass B GroupChangeMemberRequest
  unfolding byte_size parse_from_byte_stream serialize_to_byte_stream
  pdu_class = record {
    base = λ m. m.base;
    set_base = λ b m. record m { base = b };
    byte_size = byte_size;
    parse_from_byte_stream = parse_from_byte_stream;
    serialize_to_byte_stream = serialize_to_byte_stream;
  }

  unfoldable pub codec : Codec B pdu_class
  unfolding pdu_class decode
  codec = record {
    items = items;
    InRange = InRange;
    decode = decode;
    sizes = byte_size-items;
    reads = reads;
    writes = writes;
    result = λ m os. refl;
    base-decode = λ m0 m. refl;
  }

  -- A fitting message with attached data of the kind of the class arrives in a new object.
  pub group_change_member_request_transfer :
      (garbage : ℕ) (m : GroupChangeMemberRequest)
      → Fitting B codec m
      → m.base.attach_data_type ≡ attach_db
      → Arrives B pdu_class m (create garbage) (delivered garbage m)
  unfolding codec delivered received has_attach_data
  group_change_member_request_transfer garbage m f same =
      roundtrip B codec (create garbage) m f same

  -- Whatever the stream holds, parsing a GroupChangeMemberRequest leaves its change type as it
  -- was.
  pub change_type-unread :
      (m : GroupChangeMemberRequest) (is : In)
      → (parse_from_byte_stream m is).1.change_type ≡ m.change_type
  unfolding parse_from_byte_stream
  change_type-unread m is = refl
