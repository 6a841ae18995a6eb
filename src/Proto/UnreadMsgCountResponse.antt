-- ===== src/Proto/UnreadMsgCountResponse.antt =====
-- proto/unread_msg_count_response.{h,cc}
use zattd.Base.{
  ℕ, ◌+◌, ◌<◌, ◌≡◌, refl, Bool, true, List, [], ◌∷◌, ◌++◌, map, arith, length, u32_mod, to_u32, All,
}
use zattd.Wire.Stream.{Item, u32, size, ByteStream}
use zattd.Wire.Rules.{◌>>=◌, ◌>>◌, pure, checked, os_checked, Reads, Writes, Writes-u32, ◌⨾◌}
use zattd.Wire.Arrays.{
  array_items, object, put_object, parse_objectptr_array, serialize_objectptr_array,
  calculate_container_byte_size2, container_size2, Reads-objectptr_array, Writes-objectptr_array,
}
use zattd.Proto.BaseData.{UserUnreadMsgCount, new_user_unread_msg_count, UserUnreadMsgCountInRange}
use zattd.Proto.MessageTypes.{message_unread_msg_count_response}
use zattd.Proto.BasePdu.{
  BaseTeamTalkPdu, attach_db, new_base, base_byte_size, has_attach_data, PduClass,
}
use zattd.Proto.Codec.{Arrives, Codec, received, Fitting, roundtrip}

unfoldable pub user_unread_msg_count_byte_size : UserUnreadMsgCount → ℕ
user_unread_msg_count_byte_size v = to_u32 (4 + 4)

unfoldable pub user_unread_msg_count_items : UserUnreadMsgCount → List Item
user_unread_msg_count_items v = u32 v.from_user_id ∷ u32 v.unread_msg_count ∷ []

-- What arrives of a member of the array.
unfoldable pub parsed_user_unread_msg_count : UserUnreadMsgCount → UserUnreadMsgCount
parsed_user_unread_msg_count v = v

user_unread_msg_count_byte_size-items :
    (v : UserUnreadMsgCount)
    → user_unread_msg_count_byte_size v ≡ to_u32 (size (user_unread_msg_count_items v))
unfolding user_unread_msg_count_byte_size user_unread_msg_count_items
user_unread_msg_count_byte_size-items v = omega arith

pub record UnreadMsgCountResponse : Type 0 where
  pub base : BaseTeamTalkPdu
  pub to_user_id : ℕ
  pub user_unread_list : List UserUnreadMsgCount

-- What the constructor passes to the base class.
abbrev pub message_type : ℕ
message_type = message_unread_msg_count_response

-- The constructor; what it leaves uninitialised holds `garbage`.
unfoldable pub create : ℕ → UnreadMsgCountResponse
unfolding new_base
create garbage = record {
  base = new_base attach_db garbage;
  to_user_id = garbage;
  user_unread_list = [];
}

unfoldable pub byte_size : UnreadMsgCountResponse → ℕ
byte_size m =
    calculate_container_byte_size2 user_unread_msg_count_byte_size
      (to_u32 (base_byte_size m.base + 4)) m.user_unread_list

unfoldable pub items : UnreadMsgCountResponse → List Item
items m = u32 m.to_user_id ∷ array_items user_unread_msg_count_items m.user_unread_list

pub record InRange (m : UnreadMsgCountResponse) : Type 0 where
  pub to_user_id : m.to_user_id < u32_mod
  pub user_unread_list : All UserUnreadMsgCountInRange m.user_unread_list
  pub user_unread_list_size : length m.user_unread_list < u32_mod

unfoldable pub decode : UnreadMsgCountResponse → UnreadMsgCountResponse → UnreadMsgCountResponse
decode m0 m = record m {
  base = m0.base;
  user_unread_list = m0.user_unread_list ++ map parsed_user_unread_msg_count m.user_unread_list;
}

pub byte_size-items :
    (m : UnreadMsgCountResponse) → byte_size m ≡ to_u32 (base_byte_size m.base + size (items m))
unfolding byte_size items
byte_size-items m = omega (
  arith,
  container_size2 user_unread_msg_count_items user_unread_msg_count_byte_size-items
      (to_u32 (base_byte_size m.base + 4)) m.user_unread_list,
)

-- What the receiver of `m` holds.
unfoldable pub delivered : ℕ → UnreadMsgCountResponse → UnreadMsgCountResponse
unfolding new_base create parsed_user_unread_msg_count
delivered garbage m = record m {
  base = record (new_base attach_db garbage) { attach_data = m.base.attach_data };
  user_unread_list = map parsed_user_unread_msg_count m.user_unread_list;
}

module _ (B : ByteStream) where
  open B use {Out, In, contents, read_u32, write_u32, reader, reads_u32, reader_good}

  unfoldable pub parse_user_unread_msg_count :
      UserUnreadMsgCount → In → Bool × UserUnreadMsgCount × In
  parse_user_unread_msg_count v = checked B do
    from_user_id ← read_u32 v.from_user_id
    unread_msg_count ← read_u32 v.unread_msg_count
    pure (record v { from_user_id = from_user_id; unread_msg_count = unread_msg_count })

  unfoldable pub serialize_user_unread_msg_count : UserUnreadMsgCount → Out → Bool × Out
  serialize_user_unread_msg_count v =
      os_checked B do write_u32 v.from_user_id; write_u32 v.unread_msg_count

  Reads-user_unread_msg_count :
      (v : UserUnreadMsgCount)
      → UserUnreadMsgCountInRange v
      → Reads B
          (object B parse_user_unread_msg_count new_user_unread_msg_count)
          (user_unread_msg_count_items v)
          (parsed_user_unread_msg_count v)
  unfolding parse_user_unread_msg_count user_unread_msg_count_items parsed_user_unread_msg_count
  Reads-user_unread_msg_count v h = record {
    at = λ rest. rw (reads_u32 _ _ _ h.from_user_id, reads_u32 _ _ _ h.unread_msg_count);
  }

  Writes-user_unread_msg_count :
      (v : UserUnreadMsgCount)
      → UserUnreadMsgCountInRange v
      → Writes B (put_object B serialize_user_unread_msg_count v) (user_unread_msg_count_items v)
  unfolding serialize_user_unread_msg_count user_unread_msg_count_items
  Writes-user_unread_msg_count v h = Writes-u32 B h.from_user_id ⨾ Writes-u32 B h.unread_msg_count

  unfoldable pub parse_from_byte_stream :
      UnreadMsgCountResponse → In → Bool × UnreadMsgCountResponse × In
  parse_from_byte_stream m = checked B do
    to_user_id ← read_u32 m.to_user_id
    user_unread_list ←
        parse_objectptr_array B parse_user_unread_msg_count new_user_unread_msg_count
          m.user_unread_list
    pure (record m { to_user_id = to_user_id; user_unread_list = user_unread_list })

  unfoldable pub serialize_to_byte_stream : UnreadMsgCountResponse → Out → Bool × Out
  serialize_to_byte_stream m = os_checked B do
    write_u32 m.to_user_id
    serialize_objectptr_array B serialize_user_unread_msg_count m.user_unread_list

  pub reads :
      (m0 m : UnreadMsgCountResponse)
      → InRange m
      → (rest : List Item)
      → parse_from_byte_stream m0 (reader (items m ++ rest)) ≡ (true, decode m0 m, reader rest)
  unfolding parse_from_byte_stream items decode
  reads m0 m h rest = rw (
    reads_u32 _ _ _ h.to_user_id,
    (Reads-objectptr_array B {P = UserUnreadMsgCountInRange} user_unread_msg_count_items
          parse_user_unread_msg_count new_user_unread_msg_count parsed_user_unread_msg_count
          Reads-user_unread_msg_count m0.user_unread_list m.user_unread_list h.user_unread_list_size
          h.user_unread_list).at
        rest,
    reader_good,
  )

  pub writes :
      (m : UnreadMsgCountResponse)
      → InRange m
      → Writes B (λ os. (serialize_to_byte_stream m os).1) (items m)
  unfolding serialize_to_byte_stream items
  writes m h =
      Writes-u32 B h.to_user_id
      ⨾ Writes-objectptr_array B {P = UserUnreadMsgCountInRange} user_unread_msg_count_items
          serialize_user_unread_msg_count Writes-user_unread_msg_count m.user_unread_list
          h.user_unread_list_size h.user_unread_list

  unfoldable pub pdu_class : PduClass B UnreadMsgCountResponse
  unfolding byte_size parse_from_byte_stream serialize_to_byte_stream
  pdu_class = record {
    base = λ m. m.base;
    set_base = λ b m. record m { base = b };
    byte_size = byte_size;
    parse_from_byte_stream = parse_from_byte_stream;
    serialize_to_byte_stream = serialize_to_byte_stream;
  }

  unfoldable pub codec : Codec B pdu_class
  unfolding pdu_class decode
  codec = record {
    items = items;
    InRange = InRange;
    decode = decode;
    sizes = byte_size-items;
    reads = reads;
    writes = writes;
    result = λ m os. refl;
    base-decode = λ m0 m. refl;
  }

  -- A UnreadMsgCountResponse whose fields are in range, whose bytes are fewer than 2^32 and whose
  -- attached data are of the kind of the class is written by SerializeToArray into a buffer of its
  -- ByteSize(), and ParseFromArray of those bytes into a new object succeeds and leaves the fields
  -- that the class sends.
  pub unread_msg_count_response_transfer :
      (garbage : ℕ) (m : UnreadMsgCountResponse)
      → Fitting B codec m
      → m.base.attach_data_type ≡ attach_db
      → Arrives B pdu_class m (create garbage) (delivered garbage m)
  unfolding codec delivered received has_attach_data
  unread_msg_count_response_transfer garbage m f same = roundtrip B codec (create garbage) m f same
