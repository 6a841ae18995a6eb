-- ===== src/Proto/MsgReadAck.antt =====
-- proto/msg_read_ack.{h,cc}
use zattd.Base.{ℕ, ◌+◌, ◌<◌, ◌≡◌, refl, Bool, true, List, [], ◌∷◌, ◌++◌, arith, u32_mod, to_u32}
use zattd.Wire.Stream.{Item, u32, size, ByteStream}
use zattd.Wire.Rules.{◌>>=◌, ◌>>◌, pure, checked, os_checked, Writes, Writes-u32, ◌⨾◌}
use zattd.Proto.MessageTypes.{message_msg_read_ack}
use zattd.Proto.BasePdu.{
  BaseTeamTalkPdu, attach_null, new_base, base_byte_size, has_attach_data, PduClass,
}
use zattd.Proto.Codec.{Arrives, Codec, received, Fitting, roundtrip}

pub record MsgReadAck : Type 0 where
  pub base : BaseTeamTalkPdu
  pub request_id : ℕ
  pub from_user_id : ℕ
  pub to_user_id : ℕ
  pub client_type : ℕ

-- What the constructor passes to the base class.
abbrev pub message_type : ℕ
message_type = message_msg_read_ack

-- The constructor; what it leaves uninitialised holds `garbage`.
unfoldable pub create : ℕ → MsgReadAck
unfolding new_base
create garbage = record {
  base = new_base attach_null garbage;
  request_id = garbage;
  from_user_id = garbage;
  to_user_id = garbage;
  client_type = garbage;
}

unfoldable pub byte_size : MsgReadAck → ℕ
byte_size m = to_u32 (base_byte_size m.base + 4 + 4 + 4 + 4)

unfoldable pub items : MsgReadAck → List Item
items m = u32 m.request_id ∷ u32 m.from_user_id ∷ u32 m.to_user_id ∷ u32 m.client_type ∷ []

pub record InRange (m : MsgReadAck) : Type 0 where
  pub request_id : m.request_id < u32_mod
  pub from_user_id : m.from_user_id < u32_mod
  pub to_user_id : m.to_user_id < u32_mod
  pub client_type : m.client_type < u32_mod

unfoldable pub decode : MsgReadAck → MsgReadAck → MsgReadAck
decode m0 m = record m { base = m0.base }

pub byte_size-items :
    (m : MsgReadAck) → byte_size m ≡ to_u32 (base_byte_size m.base + size (items m))
unfolding byte_size items
byte_size-items m = omega arith

-- What the receiver of `m` holds.
unfoldable pub delivered : ℕ → MsgReadAck → MsgReadAck
unfolding new_base create
delivered garbage m = record m { base = new_base attach_null garbage }

module _ (B : ByteStream) where
  open B use {Out, In, contents, read_u32, write_u32, reader, reads_u32, reader_good}

  unfoldable pub parse_from_byte_stream : MsgReadAck → In → Bool × MsgReadAck × In
  parse_from_byte_stream m = checked B do
    request_id ← read_u32 m.request_id
    from_user_id ← read_u32 m.from_user_id
    to_user_id ← read_u32 m.to_user_id
    client_type ← read_u32 m.client_type
    pure (record m {
      request_id = request_id;
      from_user_id = from_user_id;
      to_user_id = to_user_id;
      client_type = client_type;
    })

  unfoldable pub serialize_to_byte_stream : MsgReadAck → Out → Bool × Out
  serialize_to_byte_stream m = os_checked B do
    write_u32 m.request_id
    write_u32 m.from_user_id
    write_u32 m.to_user_id
    write_u32 m.client_type

  pub reads :
      (m0 m : MsgReadAck)
      → InRange m
      → (rest : List Item)
      → parse_from_byte_stream m0 (reader (items m ++ rest)) ≡ (true, decode m0 m, reader rest)
  unfolding parse_from_byte_stream items decode
  reads m0 m h rest = rw (
    reads_u32 _ _ _ h.request_id,
    reads_u32 _ _ _ h.from_user_id,
    reads_u32 _ _ _ h.to_user_id,
    reads_u32 _ _ _ h.client_type,
    reader_good,
  )

  pub writes :
      (m : MsgReadAck) → InRange m → Writes B (λ os. (serialize_to_byte_stream m os).1) (items m)
  unfolding serialize_to_byte_stream items
  writes m h =
      Writes-u32 B h.request_id
      ⨾ Writes-u32 B h.from_user_id
      ⨾ Writes-u32 B h.to_user_id
      ⨾ Writes-u32 B h.client_type

  unfoldable pub pdu_class : PduClass B MsgReadAck
  unfolding byte_size parse_from_byte_stream serialize_to_byte_stream
  pdu_class = record {
    base = λ m. m.base;
    set_base = λ b m. record m { base = b };
    byte_size = byte_size;
    parse_from_byte_stream = parse_from_byte_stream;
    serialize_to_byte_stream = serialize_to_byte_stream;
  }

  unfoldable pub codec : Codec B pdu_class
  unfolding pdu_class decode
  codec = record {
    items = items;
    InRange = InRange;
    decode = decode;
    sizes = byte_size-items;
    reads = reads;
    writes = writes;
    result = λ m os. refl;
    base-decode = λ m0 m. refl;
  }

  -- A fitting message with attached data of the kind of the class arrives in a new object.
  pub msg_read_ack_transfer :
      (garbage : ℕ) (m : MsgReadAck)
      → Fitting B codec m
      → m.base.attach_data_type ≡ attach_null
      → Arrives B pdu_class m (create garbage) (delivered garbage m)
  unfolding codec delivered received has_attach_data
  msg_read_ack_transfer garbage m f same = roundtrip B codec (create garbage) m f same
