-- ===== src/Proto/HistoryMsgRequest.antt =====
-- proto/history_msg_request.{h,cc}
use zattd.Base.{ℕ, ◌+◌, ◌<◌, ◌≡◌, refl, Bool, true, List, [], ◌∷◌, ◌++◌, arith, u32_mod, to_u32}
use zattd.Wire.Stream.{Item, u32, size, ByteStream}
use zattd.Wire.Rules.{◌>>=◌, ◌>>◌, pure, checked, os_checked, Writes, Writes-u32, ◌⨾◌}
use zattd.Proto.MessageTypes.{message_history_msg_request}
use zattd.Proto.BasePdu.{
  BaseTeamTalkPdu, attach_db, new_base, base_byte_size, has_attach_data, PduClass,
}
use zattd.Proto.Codec.{Arrives, Codec, received, Fitting, roundtrip}

pub record HistoryMsgRequest : Type 0 where
  pub base : BaseTeamTalkPdu
  pub from_user_id : ℕ
  pub to_user_id : ℕ
  pub msg_offset : ℕ
  pub msg_count : ℕ

-- What the constructor passes to the base class.
abbrev pub message_type : ℕ
message_type = message_history_msg_request

-- The constructor; what it leaves uninitialised holds `garbage`.
unfoldable pub create : ℕ → HistoryMsgRequest
unfolding new_base
create garbage = record {
  base = new_base attach_db garbage;
  from_user_id = garbage;
  to_user_id = garbage;
  msg_offset = garbage;
  msg_count = garbage;
}

unfoldable pub byte_size : HistoryMsgRequest → ℕ
byte_size m = to_u32 (base_byte_size m.base + 4 + 4 + 4 + 4)

unfoldable pub items : HistoryMsgRequest → List Item
items m = u32 m.from_user_id ∷ u32 m.to_user_id ∷ u32 m.msg_offset ∷ u32 m.msg_count ∷ []

pub record InRange (m : HistoryMsgRequest) : Type 0 where
  pub from_user_id : m.from_user_id < u32_mod
  pub to_user_id : m.to_user_id < u32_mod
  pub msg_offset : m.msg_offset < u32_mod
  pub msg_count : m.msg_count < u32_mod

unfoldable pub decode : HistoryMsgRequest → HistoryMsgRequest → HistoryMsgRequest
decode m0 m = record m { base = m0.base }

pub byte_size-items :
    (m : HistoryMsgRequest) → byte_size m ≡ to_u32 (base_byte_size m.base + size (items m))
unfolding byte_size items
byte_size-items m = omega arith

-- What the receiver of `m` holds.
unfoldable pub delivered : ℕ → HistoryMsgRequest → HistoryMsgRequest
unfolding new_base create
delivered garbage m = record m {
  base = record (new_base attach_db garbage) { attach_data = m.base.attach_data };
}

module _ (B : ByteStream) where
  open B use {Out, In, contents, read_u32, write_u32, reader, reads_u32, reader_good}

  unfoldable pub parse_from_byte_stream : HistoryMsgRequest → In → Bool × HistoryMsgRequest × In
  parse_from_byte_stream m = checked B do
    from_user_id ← read_u32 m.from_user_id
    to_user_id ← read_u32 m.to_user_id
    msg_offset ← read_u32 m.msg_offset
    msg_count ← read_u32 m.msg_count
    pure (record m {
      from_user_id = from_user_id;
      to_user_id = to_user_id;
      msg_offset = msg_offset;
      msg_count = msg_count;
    })

  unfoldable pub serialize_to_byte_stream : HistoryMsgRequest → Out → Bool × Out
  serialize_to_byte_stream m = os_checked B do
    write_u32 m.from_user_id
    write_u32 m.to_user_id
    write_u32 m.msg_offset
    write_u32 m.msg_count

  pub reads :
      (m0 m : HistoryMsgRequest)
      → InRange m
      → (rest : List Item)
      → parse_from_byte_stream m0 (reader (items m ++ rest)) ≡ (true, decode m0 m, reader rest)
  unfolding parse_from_byte_stream items decode
  reads m0 m h rest = rw (
    reads_u32 _ _ _ h.from_user_id,
    reads_u32 _ _ _ h.to_user_id,
    reads_u32 _ _ _ h.msg_offset,
    reads_u32 _ _ _ h.msg_count,
    reader_good,
  )

  pub writes :
      (m : HistoryMsgRequest)
      → InRange m
      → Writes B (λ os. (serialize_to_byte_stream m os).1) (items m)
  unfolding serialize_to_byte_stream items
  writes m h =
      Writes-u32 B h.from_user_id
      ⨾ Writes-u32 B h.to_user_id
      ⨾ Writes-u32 B h.msg_offset
      ⨾ Writes-u32 B h.msg_count

  unfoldable pub pdu_class : PduClass B HistoryMsgRequest
  unfolding byte_size parse_from_byte_stream serialize_to_byte_stream
  pdu_class = record {
    base = λ m. m.base;
    set_base = λ b m. record m { base = b };
    byte_size = byte_size;
    parse_from_byte_stream = parse_from_byte_stream;
    serialize_to_byte_stream = serialize_to_byte_stream;
  }

  unfoldable pub codec : Codec B pdu_class
  unfolding pdu_class decode
  codec = record {
    items = items;
    InRange = InRange;
    decode = decode;
    sizes = byte_size-items;
    reads = reads;
    writes = writes;
    result = λ m os. refl;
    base-decode = λ m0 m. refl;
  }

  -- A fitting message with attached data of the kind of the class arrives in a new object.
  pub history_msg_request_transfer :
      (garbage : ℕ) (m : HistoryMsgRequest)
      → Fitting B codec m
      → m.base.attach_data_type ≡ attach_db
      → Arrives B pdu_class m (create garbage) (delivered garbage m)
  unfolding codec delivered received has_attach_data
  history_msg_request_transfer garbage m f same = roundtrip B codec (create garbage) m f same
