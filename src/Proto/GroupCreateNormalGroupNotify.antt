-- ===== src/Proto/GroupCreateNormalGroupNotify.antt =====
-- proto/group_create_normal_group_notify.{h,cc}
use zattd.Base.{
  ℕ, ◌+◌, ◌<◌, ◌≡◌, refl, Bool, true, List, [], ◌∷◌, ◌++◌, arith, length, u32_mod, to_u32, All,
}
use zattd.Wire.Stream.{Item, u32, str, size, ByteStream}
use zattd.Wire.Rules.{
  ◌>>=◌, ◌>>◌, pure, checked, os_checked, Writes, Writes-u32, Writes-string, ◌⨾◌,
}
use zattd.Wire.Arrays.{
  array_items, uint32_items, IsUint32, parse_basictype_array, serialize_basictype_array,
  calculate_container_byte_size, container_size, Reads-basictype_array, Writes-basictype_array,
}
use zattd.Proto.MessageTypes.{message_group_create_normal_group_notify}
use zattd.Proto.BasePdu.{
  BaseTeamTalkPdu, attach_null, new_base, base_byte_size, sizeof_string, has_attach_data, PduClass,
}
use zattd.Proto.Codec.{Arrives, Codec, received, Fitting, roundtrip}

pub record GroupCreateNormalGroupNotify : Type 0 where
  pub base : BaseTeamTalkPdu
  pub group_id : ℕ
  pub group_name : List ℕ
  pub avatar_name : List ℕ
  pub user_list : List ℕ

-- What the constructor passes to the base class.
abbrev pub message_type : ℕ
message_type = message_group_create_normal_group_notify

-- The constructor; what it leaves uninitialised holds `garbage`.
unfoldable pub create : ℕ → GroupCreateNormalGroupNotify
unfolding new_base
create garbage = record {
  base = new_base attach_null garbage;
  group_id = garbage;
  group_name = [];
  avatar_name = [];
  user_list = [];
}

unfoldable pub byte_size : GroupCreateNormalGroupNotify → ℕ
byte_size m = to_u32 (
    base_byte_size m.base
    + 4
    + sizeof_string m.group_name
    + sizeof_string m.avatar_name
    + calculate_container_byte_size m.user_list)

unfoldable pub items : GroupCreateNormalGroupNotify → List Item
items m =
    u32 m.group_id ∷ str m.group_name ∷ str m.avatar_name ∷ array_items uint32_items m.user_list

pub record InRange (m : GroupCreateNormalGroupNotify) : Type 0 where
  pub group_id : m.group_id < u32_mod
  pub group_name : length m.group_name < u32_mod
  pub avatar_name : length m.avatar_name < u32_mod
  pub user_list : All IsUint32 m.user_list
  pub user_list_size : length m.user_list < u32_mod

unfoldable pub decode :
    GroupCreateNormalGroupNotify → GroupCreateNormalGroupNotify → GroupCreateNormalGroupNotify
decode m0 m = record m { base = m0.base; user_list = m0.user_list ++ m.user_list }

pub byte_size-items :
    (m : GroupCreateNormalGroupNotify)
    → byte_size m ≡ to_u32 (base_byte_size m.base + size (items m))
unfolding byte_size items
byte_size-items m = omega (arith, container_size m.user_list)

-- What the receiver of `m` holds.
unfoldable pub delivered : ℕ → GroupCreateNormalGroupNotify → GroupCreateNormalGroupNotify
unfolding new_base create
delivered garbage m = record m { base = new_base attach_null garbage }

module _ (B : ByteStream) where
  open B use {
    Out, In, contents, read_u32, read_string, write_u32, write_string, reader, reads_u32,
    reads_string, reader_good,
  }

  unfoldable pub parse_from_byte_stream :
      GroupCreateNormalGroupNotify → In → Bool × GroupCreateNormalGroupNotify × In
  parse_from_byte_stream m = checked B do
    group_id ← read_u32 m.group_id
    group_name ← read_string m.group_name
    avatar_name ← read_string m.avatar_name
    user_list ← parse_basictype_array B m.user_list
    pure (record m {
      group_id = group_id;
      group_name = group_name;
      avatar_name = avatar_name;
      user_list = user_list;
    })

  unfoldable pub serialize_to_byte_stream : GroupCreateNormalGroupNotify → Out → Bool × Out
  serialize_to_byte_stream m = os_checked B do
    write_u32 m.group_id
    write_string m.group_name
    write_string m.avatar_name
    serialize_basictype_array B m.user_list

  pub reads :
      (m0 m : GroupCreateNormalGroupNotify)
      → InRange m
      → (rest : List Item)
      → parse_from_byte_stream m0 (reader (items m ++ rest)) ≡ (true, decode m0 m, reader rest)
  unfolding parse_from_byte_stream items decode
  reads m0 m h rest = rw (
    reads_u32 _ _ _ h.group_id,
    reads_string _ _ _ h.group_name,
    reads_string _ _ _ h.avatar_name,
    (Reads-basictype_array B m0.user_list m.user_list h.user_list_size h.user_list).at rest,
    reader_good,
  )

  pub writes :
      (m : GroupCreateNormalGroupNotify)
      → InRange m
      → Writes B (λ os. (serialize_to_byte_stream m os).1) (items m)
  unfolding serialize_to_byte_stream items
  writes m h =
      Writes-u32 B h.group_id
      ⨾ Writes-string B h.group_name
      ⨾ Writes-string B h.avatar_name
      ⨾ Writes-basictype_array B m.user_list h.user_list_size h.user_list

  unfoldable pub pdu_class : PduClass B GroupCreateNormalGroupNotify
  unfolding byte_size parse_from_byte_stream serialize_to_byte_stream
  pdu_class = record {
    base = λ m. m.base;
    set_base = λ b m. record m { base = b };
    byte_size = byte_size;
    parse_from_byte_stream = parse_from_byte_stream;
    serialize_to_byte_stream = serialize_to_byte_stream;
  }

  unfoldable pub codec : Codec B pdu_class
  unfolding pdu_class decode
  codec = record {
    items = items;
    InRange = InRange;
    decode = decode;
    sizes = byte_size-items;
    reads = reads;
    writes = writes;
    result = λ m os. refl;
    base-decode = λ m0 m. refl;
  }

  -- A fitting message with attached data of the kind of the class arrives in a new object.
  pub group_create_normal_group_notify_transfer :
      (garbage : ℕ) (m : GroupCreateNormalGroupNotify)
      → Fitting B codec m
      → m.base.attach_data_type ≡ attach_null
      → Arrives B pdu_class m (create garbage) (delivered garbage m)
  unfolding codec delivered received has_attach_data
  group_create_normal_group_notify_transfer garbage m f same =
      roundtrip B codec (create garbage) m f same
