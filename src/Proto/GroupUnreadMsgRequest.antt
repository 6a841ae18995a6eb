-- ===== src/Proto/GroupUnreadMsgRequest.antt =====
-- proto/group_unread_msg_request.{h,cc}
use zattd.Base.{ℕ, ◌+◌, ◌<◌, ◌≡◌, refl, Bool, true, List, [], ◌∷◌, ◌++◌, arith, u32_mod, to_u32}
use zattd.Wire.Stream.{Item, u32, size, ByteStream}
use zattd.Wire.Rules.{◌>>=◌, ◌>>◌, pure, checked, os_checked, Writes, Writes-u32, ◌⨾◌}
use zattd.Proto.MessageTypes.{message_group_unread_msg_request}
use zattd.Proto.BasePdu.{
  BaseTeamTalkPdu, attach_db, new_base, base_byte_size, has_attach_data, PduClass,
}
use zattd.Proto.Codec.{Arrives, Codec, received, Fitting, roundtrip}

pub record GroupUnreadMsgRequest : Type 0 where
  pub base : BaseTeamTalkPdu
  pub req_user_id : ℕ
  pub group_id : ℕ
  pub client_type : ℕ

-- What the constructor passes to the base class.
abbrev pub message_type : ℕ
message_type = message_group_unread_msg_request

-- The constructor; what it leaves uninitialised holds `garbage`.
unfoldable pub create : ℕ → GroupUnreadMsgRequest
unfolding new_base
create garbage = record {
  base = new_base attach_db garbage;
  req_user_id = garbage;
  group_id = garbage;
  client_type = garbage;
}

unfoldable pub byte_size : GroupUnreadMsgRequest → ℕ
byte_size m = to_u32 (base_byte_size m.base + 4 + 4 + 4)

unfoldable pub items : GroupUnreadMsgRequest → List Item
items m = u32 m.req_user_id ∷ u32 m.group_id ∷ u32 m.client_type ∷ []

pub record InRange (m : GroupUnreadMsgRequest) : Type 0 where
  pub req_user_id : m.req_user_id < u32_mod
  pub group_id : m.group_id < u32_mod
  pub client_type : m.client_type < u32_mod

unfoldable pub decode : GroupUnreadMsgRequest → GroupUnreadMsgRequest → GroupUnreadMsgRequest
decode m0 m = record m { base = m0.base }

pub byte_size-items :
    (m : GroupUnreadMsgRequest) → byte_size m ≡ to_u32 (base_byte_size m.base + size (items m))
unfolding byte_size items
byte_size-items m = omega arith

-- What the receiver of `m` holds.
unfoldable pub delivered : ℕ → GroupUnreadMsgRequest → GroupUnreadMsgRequest
unfolding new_base create
delivered garbage m = record m {
  base = record (new_base attach_db garbage) { attach_data = m.base.attach_data };
}

module _ (B : ByteStream) where
  open B use {Out, In, contents, read_u32, write_u32, reader, reads_u32, reader_good}

  unfoldable pub parse_from_byte_stream :
      GroupUnreadMsgRequest → In → Bool × GroupUnreadMsgRequest × In
  parse_from_byte_stream m = checked B do
    req_user_id ← read_u32 m.req_user_id
    group_id ← read_u32 m.group_id
    client_type ← read_u32 m.client_type
    pure (record m { req_user_id = req_user_id; group_id = group_id; client_type = client_type })

  unfoldable pub serialize_to_byte_stream : GroupUnreadMsgRequest → Out → Bool × Out
  serialize_to_byte_stream m =
      os_checked B do write_u32 m.req_user_id; write_u32 m.group_id; write_u32 m.client_type

  pub reads :
      (m0 m : GroupUnreadMsgRequest)
      → InRange m
      → (rest : List Item)
      → parse_from_byte_stream m0 (reader (items m ++ rest)) ≡ (true, decode m0 m, reader rest)
  unfolding parse_from_byte_stream items decode
  reads m0 m h rest = rw (
    reads_u32 _ _ _ h.req_user_id,
    reads_u32 _ _ _ h.group_id,
    reads_u32 _ _ _ h.client_type,
    reader_good,
  )

  pub writes :
      (m : GroupUnreadMsgRequest)
      → InRange m
      → Writes B (λ os. (serialize_to_byte_stream m os).1) (items m)
  unfolding serialize_to_byte_stream items
  writes m h = Writes-u32 B h.req_user_id ⨾ Writes-u32 B h.group_id ⨾ Writes-u32 B h.client_type

  unfoldable pub pdu_class : PduClass B GroupUnreadMsgRequest
  unfolding byte_size parse_from_byte_stream serialize_to_byte_stream
  pdu_class = record {
    base = λ m. m.base;
    set_base = λ b m. record m { base = b };
    byte_size = byte_size;
    parse_from_byte_stream = parse_from_byte_stream;
    serialize_to_byte_stream = serialize_to_byte_stream;
  }

  unfoldable pub codec : Codec B pdu_class
  unfolding pdu_class decode
  codec = record {
    items = items;
    InRange = InRange;
    decode = decode;
    sizes = byte_size-items;
    reads = reads;
    writes = writes;
    result = λ m os. refl;
    base-decode = λ m0 m. refl;
  }

  -- A fitting message with attached data of the kind of the class arrives in a new object.
  pub group_unread_msg_request_transfer :
      (garbage : ℕ) (m : GroupUnreadMsgRequest)
      → Fitting B codec m
      → m.base.attach_data_type ≡ attach_db
      → Arrives B pdu_class m (create garbage) (delivered garbage m)
  unfolding codec delivered received has_attach_data
  group_unread_msg_request_transfer garbage m f same = roundtrip B codec (create garbage) m f same
