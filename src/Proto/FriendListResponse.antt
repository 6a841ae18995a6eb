-- ===== src/Proto/FriendListResponse.antt =====
-- proto/friend_list_response.{h,cc}
use zattd.Base.{
  ℕ, ◌+◌, ◌<◌, ◌≡◌, refl, Bool, true, List, [], ◌∷◌, ◌++◌, map, arith, length, u32_mod, to_u32, All,
}
use zattd.Wire.Stream.{Item, u32, size, ByteStream}
use zattd.Wire.Rules.{◌>>=◌, ◌>>◌, pure, checked, os_checked, Reads, Writes, Writes-u32, ◌⨾◌}
use zattd.Wire.Arrays.{
  array_items, object, put_object, parse_objectptr_array, serialize_objectptr_array,
  calculate_container_byte_size2, container_size2, Reads-objectptr_array, Writes-objectptr_array,
}
use zattd.Proto.BaseData.{FriendInfo, new_friend_info, FriendInfoInRange}
use zattd.Proto.MessageTypes.{message_friend_list_response}
use zattd.Proto.BasePdu.{
  BaseTeamTalkPdu, attach_db, new_base, base_byte_size, has_attach_data, PduClass,
}
use zattd.Proto.Codec.{Arrives, Codec, received, Fitting, roundtrip}

unfoldable pub friend_info_byte_size : FriendInfo → ℕ
friend_info_byte_size v = to_u32 (4 + 4)

unfoldable pub friend_info_items : FriendInfo → List Item
friend_info_items v = u32 v.friend_user_id ∷ u32 v.updated ∷ []

-- What arrives of a member of the array.
unfoldable pub parsed_friend_info : FriendInfo → FriendInfo
parsed_friend_info v = v

friend_info_byte_size-items :
    (v : FriendInfo) → friend_info_byte_size v ≡ to_u32 (size (friend_info_items v))
unfolding friend_info_byte_size friend_info_items
friend_info_byte_size-items v = omega arith

pub record FriendListResponse : Type 0 where
  pub base : BaseTeamTalkPdu
  pub from_user_id : ℕ
  pub friend_lists : List FriendInfo

-- What the constructor passes to the base class.
abbrev pub message_type : ℕ
message_type = message_friend_list_response

-- The constructor; what it leaves uninitialised holds `garbage`.
unfoldable pub create : ℕ → FriendListResponse
unfolding new_base
create garbage = record {
  base = new_base attach_db garbage;
  from_user_id = garbage;
  friend_lists = [];
}

unfoldable pub byte_size : FriendListResponse → ℕ
byte_size m =
    calculate_container_byte_size2 friend_info_byte_size (to_u32 (base_byte_size m.base + 4))
      m.friend_lists

unfoldable pub items : FriendListResponse → List Item
items m = u32 m.from_user_id ∷ array_items friend_info_items m.friend_lists

pub record InRange (m : FriendListResponse) : Type 0 where
  pub from_user_id : m.from_user_id < u32_mod
  pub friend_lists : All FriendInfoInRange m.friend_lists
  pub friend_lists_size : length m.friend_lists < u32_mod

unfoldable pub decode : FriendListResponse → FriendListResponse → FriendListResponse
decode m0 m = record m {
  base = m0.base;
  friend_lists = m0.friend_lists ++ map parsed_friend_info m.friend_lists;
}

pub byte_size-items :
    (m : FriendListResponse) → byte_size m ≡ to_u32 (base_byte_size m.base + size (items m))
unfolding byte_size items
byte_size-items m = omega (
  arith,
  container_size2 friend_info_items friend_info_byte_size-items (to_u32 (base_byte_size m.base + 4))
      m.friend_lists,
)

-- What the receiver of `m` holds.
unfoldable pub delivered : ℕ → FriendListResponse → FriendListResponse
unfolding new_base create parsed_friend_info
delivered garbage m = record m {
  base = record (new_base attach_db garbage) { attach_data = m.base.attach_data };
  friend_lists = map parsed_friend_info m.friend_lists;
}

module _ (B : ByteStream) where
  open B use {Out, In, contents, read_u32, write_u32, reader, reads_u32, reader_good}

  unfoldable pub parse_friend_info : FriendInfo → In → Bool × FriendInfo × In
  parse_friend_info v = checked B do
    friend_user_id ← read_u32 v.friend_user_id
    updated ← read_u32 v.updated
    pure (record v { friend_user_id = friend_user_id; updated = updated })

  unfoldable pub serialize_friend_info : FriendInfo → Out → Bool × Out
  serialize_friend_info v = os_checked B do write_u32 v.friend_user_id; write_u32 v.updated

  Reads-friend_info :
      (v : FriendInfo)
      → FriendInfoInRange v
      → Reads B
          (object B parse_friend_info new_friend_info)
          (friend_info_items v)
          (parsed_friend_info v)
  unfolding parse_friend_info friend_info_items parsed_friend_info
  Reads-friend_info v h = record {
    at = λ rest. rw (reads_u32 _ _ _ h.friend_user_id, reads_u32 _ _ _ h.updated);
  }

  Writes-friend_info :
      (v : FriendInfo)
      → FriendInfoInRange v
      → Writes B (put_object B serialize_friend_info v) (friend_info_items v)
  unfolding serialize_friend_info friend_info_items
  Writes-friend_info v h = Writes-u32 B h.friend_user_id ⨾ Writes-u32 B h.updated

  unfoldable pub parse_from_byte_stream : FriendListResponse → In → Bool × FriendListResponse × In
  parse_from_byte_stream m = checked B do
    from_user_id ← read_u32 m.from_user_id
    friend_lists ← parse_objectptr_array B parse_friend_info new_friend_info m.friend_lists
    pure (record m { from_user_id = from_user_id; friend_lists = friend_lists })

  unfoldable pub serialize_to_byte_stream : FriendListResponse → Out → Bool × Out
  serialize_to_byte_stream m =
      os_checked B do
        write_u32 m.from_user_id
        serialize_objectptr_array B serialize_friend_info m.friend_lists

  pub reads :
      (m0 m : FriendListResponse)
      → InRange m
      → (rest : List Item)
      → parse_from_byte_stream m0 (reader (items m ++ rest)) ≡ (true, decode m0 m, reader rest)
  unfolding parse_from_byte_stream items decode
  reads m0 m h rest = rw (
    reads_u32 _ _ _ h.from_user_id,
    (Reads-objectptr_array B {P = FriendInfoInRange} friend_info_items parse_friend_info
          new_friend_info parsed_friend_info Reads-friend_info m0.friend_lists m.friend_lists
          h.friend_lists_size h.friend_lists).at
        rest,
    reader_good,
  )

  pub writes :
      (m : FriendListResponse)
      → InRange m
      → Writes B (λ os. (serialize_to_byte_stream m os).1) (items m)
  unfolding serialize_to_byte_stream items
  writes m h =
      Writes-u32 B h.from_user_id
      ⨾ Writes-objectptr_array B {P = FriendInfoInRange} friend_info_items serialize_friend_info
          Writes-friend_info m.friend_lists h.friend_lists_size h.friend_lists

  unfoldable pub pdu_class : PduClass B FriendListResponse
  unfolding byte_size parse_from_byte_stream serialize_to_byte_stream
  pdu_class = record {
    base = λ m. m.base;
    set_base = λ b m. record m { base = b };
    byte_size = byte_size;
    parse_from_byte_stream = parse_from_byte_stream;
    serialize_to_byte_stream = serialize_to_byte_stream;
  }

  unfoldable pub codec : Codec B pdu_class
  unfolding pdu_class decode
  codec = record {
    items = items;
    InRange = InRange;
    decode = decode;
    sizes = byte_size-items;
    reads = reads;
    writes = writes;
    result = λ m os. refl;
    base-decode = λ m0 m. refl;
  }

  -- A FriendListResponse whose fields are in range, whose bytes are fewer than 2^32 and whose
  -- attached data are of the kind of the class is written by SerializeToArray into a buffer of its
  -- ByteSize(), and ParseFromArray of those bytes into a new object succeeds and leaves the fields
  -- that the class sends.
  pub friend_list_response_transfer :
      (garbage : ℕ) (m : FriendListResponse)
      → Fitting B codec m
      → m.base.attach_data_type ≡ attach_db
      → Arrives B pdu_class m (create garbage) (delivered garbage m)
  unfolding codec delivered received has_attach_data
  friend_list_response_transfer garbage m f same = roundtrip B codec (create garbage) m f same
