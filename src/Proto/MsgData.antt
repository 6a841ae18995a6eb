-- ===== src/Proto/MsgData.antt =====
-- proto/msg_data.{h,cc}
use zattd.Base.{
  ℕ, ◌+◌, ◌%◌, ◌<◌, ◌≡◌, refl, Bool, true, List, [], ◌∷◌, ◌++◌, arith, length, u32_mod, to_u32,
}
use zattd.Wire.Stream.{Item, u8, u32, str, size, ByteStream}
use zattd.Wire.Rules.{
  ◌>>=◌, ◌>>◌, pure, checked, os_checked, Writes, Writes-u8, Writes-u32, Writes-string, ◌⨾◌,
}
use zattd.Proto.MessageTypes.{message_msg_data}
use zattd.Proto.BasePdu.{
  BaseTeamTalkPdu, attach_db, new_base, base_byte_size, sizeof_string, has_attach_data, PduClass,
}
use zattd.Proto.Codec.{Arrives, Codec, received, Fitting, roundtrip}

pub record MsgData : Type 0 where
  pub base : BaseTeamTalkPdu
  pub request_id : ℕ
  pub from_user_id : ℕ
  pub to_user_id : ℕ
  pub create_time : ℕ
  pub msg_type : ℕ
  pub msg_data : List ℕ

-- What the constructor passes to the base class.
abbrev pub message_type : ℕ
message_type = message_msg_data

-- The constructor; what it leaves uninitialised holds `garbage`.
unfoldable pub create : ℕ → MsgData
unfolding new_base
create garbage = record {
  base = new_base attach_db garbage;
  request_id = garbage;
  from_user_id = garbage;
  to_user_id = garbage;
  create_time = garbage;
  msg_type = garbage % 256;
  msg_data = [];
}

unfoldable pub byte_size : MsgData → ℕ
byte_size m = to_u32 (base_byte_size m.base + 4 + 4 + 4 + 4 + 1 + sizeof_string m.msg_data)

unfoldable pub items : MsgData → List Item
items m =
    u32 m.request_id
    ∷ u32 m.from_user_id
    ∷ u32 m.to_user_id
    ∷ u32 m.create_time
    ∷ u8 m.msg_type
    ∷ str m.msg_data
    ∷ []

pub record InRange (m : MsgData) : Type 0 where
  pub request_id : m.request_id < u32_mod
  pub from_user_id : m.from_user_id < u32_mod
  pub to_user_id : m.to_user_id < u32_mod
  pub create_time : m.create_time < u32_mod
  pub msg_type : m.msg_type < 256
  pub msg_data : length m.msg_data < u32_mod

unfoldable pub decode : MsgData → MsgData → MsgData
decode m0 m = record m { base = m0.base }

pub byte_size-items : (m : MsgData) → byte_size m ≡ to_u32 (base_byte_size m.base + size (items m))
unfolding byte_size items
byte_size-items m = omega arith

-- What the receiver of `m` holds.
unfoldable pub delivered : ℕ → MsgData → MsgData
unfolding new_base create
delivered garbage m = record m {
  base = record (new_base attach_db garbage) { attach_data = m.base.attach_data };
}

module _ (B : ByteStream) where
  open B use {
    Out, In, contents, read_u8, read_u32, read_string, write_u8, write_u32, write_string, reader,
    reads_u8, reads_u32, reads_string, reader_good,
  }

  unfoldable pub parse_from_byte_stream : MsgData → In → Bool × MsgData × In
  parse_from_byte_stream m = checked B do
    request_id ← read_u32 m.request_id
    from_user_id ← read_u32 m.from_user_id
    to_user_id ← read_u32 m.to_user_id
    create_time ← read_u32 m.create_time
    msg_type ← read_u8 m.msg_type
    msg_data ← read_string m.msg_data
    pure (record m {
      request_id = request_id;
      from_user_id = from_user_id;
      to_user_id = to_user_id;
      create_time = create_time;
      msg_type = msg_type;
      msg_data = msg_data;
    })

  unfoldable pub serialize_to_byte_stream : MsgData → Out → Bool × Out
  serialize_to_byte_stream m = os_checked B do
    write_u32 m.request_id
    write_u32 m.from_user_id
    write_u32 m.to_user_id
    write_u32 m.create_time
    write_u8 m.msg_type
    write_string m.msg_data

  pub reads :
      (m0 m : MsgData)
      → InRange m
      → (rest : List Item)
      → parse_from_byte_stream m0 (reader (items m ++ rest)) ≡ (true, decode m0 m, reader rest)
  unfolding parse_from_byte_stream items decode
  reads m0 m h rest = rw (
    reads_u32 _ _ _ h.request_id,
    reads_u32 _ _ _ h.from_user_id,
    reads_u32 _ _ _ h.to_user_id,
    reads_u32 _ _ _ h.create_time,
    reads_u8 _ _ _ h.msg_type,
    reads_string _ _ _ h.msg_data,
    reader_good,
  )

  pub writes :
      (m : MsgData) → InRange m → Writes B (λ os. (serialize_to_byte_stream m os).1) (items m)
  unfolding serialize_to_byte_stream items
  writes m h =
      Writes-u32 B h.request_id
      ⨾ Writes-u32 B h.from_user_id
      ⨾ Writes-u32 B h.to_user_id
      ⨾ Writes-u32 B h.create_time
      ⨾ Writes-u8 B h.msg_type
      ⨾ Writes-string B h.msg_data

  unfoldable pub pdu_class : PduClass B MsgData
  unfolding byte_size parse_from_byte_stream serialize_to_byte_stream
  pdu_class = record {
    base = λ m. m.base;
    set_base = λ b m. record m { base = b };
    byte_size = byte_size;
    parse_from_byte_stream = parse_from_byte_stream;
    serialize_to_byte_stream = serialize_to_byte_stream;
  }

  unfoldable pub codec : Codec B pdu_class
  unfolding pdu_class decode
  codec = record {
    items = items;
    InRange = InRange;
    decode = decode;
    sizes = byte_size-items;
    reads = reads;
    writes = writes;
    result = λ m os. refl;
    base-decode = λ m0 m. refl;
  }

  -- A MsgData whose fields are in range, whose bytes are fewer than 2^32 and whose attached data
  -- are of the kind of the class is written by SerializeToArray into a buffer of its ByteSize(),
  -- and ParseFromArray of those bytes into a new object succeeds and leaves the fields that the
  -- class sends.
  pub msg_data_transfer :
      (garbage : ℕ) (m : MsgData)
      → Fitting B codec m
      → m.base.attach_data_type ≡ attach_db
      → Arrives B pdu_class m (create garbage) (delivered garbage m)
  unfolding codec delivered received has_attach_data
  msg_data_transfer garbage m f same = roundtrip B codec (create garbage) m f same
