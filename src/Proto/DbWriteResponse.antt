-- ===== src/Proto/DbWriteResponse.antt =====
-- proto/db_write_response.{h,cc}
use zattd.Base.{
  ℕ, ◌+◌, ◌%◌, ◌<◌, ◌≡◌, refl, Bool, true, List, [], ◌∷◌, ◌++◌, arith, u32_mod, to_u32,
}
use zattd.Wire.Stream.{Item, u16, u32, size, ByteStream}
use zattd.Wire.Rules.{◌>>=◌, ◌>>◌, pure, checked, os_checked, Writes, Writes-u16, Writes-u32, ◌⨾◌}
use zattd.Proto.MessageTypes.{message_db_write_response}
use zattd.Proto.BasePdu.{
  BaseTeamTalkPdu, attach_null, new_base, base_byte_size, has_attach_data, PduClass,
}
use zattd.Proto.Codec.{Arrives, Codec, received, Fitting, roundtrip}

pub record DbWriteResponse : Type 0 where
  pub base : BaseTeamTalkPdu
  pub request_id : ℕ
  pub result : ℕ
  pub request_pdu_type : ℕ
  pub from_id : ℕ
  pub to_id : ℕ

-- What the constructor passes to the base class.
abbrev pub message_type : ℕ
message_type = message_db_write_response

-- The constructor; what it leaves uninitialised holds `garbage`.
unfoldable pub create : ℕ → DbWriteResponse
unfolding new_base
create garbage = record {
  base = new_base attach_null garbage;
  request_id = garbage;
  result = garbage;
  request_pdu_type = garbage % 65536;
  from_id = garbage;
  to_id = garbage;
}

unfoldable pub byte_size : DbWriteResponse → ℕ
byte_size m = to_u32 (base_byte_size m.base + 4 + 4 + 2 + 4 + 4)

unfoldable pub items : DbWriteResponse → List Item
items m =
    u32 m.request_id ∷ u32 m.result ∷ u16 m.request_pdu_type ∷ u32 m.from_id ∷ u32 m.to_id ∷ []

pub record InRange (m : DbWriteResponse) : Type 0 where
  pub request_id : m.request_id < u32_mod
  pub result : m.result < u32_mod
  pub request_pdu_type : m.request_pdu_type < 65536
  pub from_id : m.from_id < u32_mod
  pub to_id : m.to_id < u32_mod

unfoldable pub decode : DbWriteResponse → DbWriteResponse → DbWriteResponse
decode m0 m = record m { base = m0.base }

pub byte_size-items :
    (m : DbWriteResponse) → byte_size m ≡ to_u32 (base_byte_size m.base + size (items m))
unfolding byte_size items
byte_size-items m = omega arith

-- What the receiver of `m` holds.
unfoldable pub delivered : ℕ → DbWriteResponse → DbWriteResponse
unfolding new_base create
delivered garbage m = record m { base = new_base attach_null garbage }

module _ (B : ByteStream) where
  open B use {
    Out, In, contents, read_u16, read_u32, write_u16, write_u32, reader, reads_u16, reads_u32,
    reader_good,
  }

  unfoldable pub parse_from_byte_stream : DbWriteResponse → In → Bool × DbWriteResponse × In
  parse_from_byte_stream m = checked B do
    request_id ← read_u32 m.request_id
    result ← read_u32 m.result
    request_pdu_type ← read_u16 m.request_pdu_type
    from_id ← read_u32 m.from_id
    to_id ← read_u32 m.to_id
    pure (record m {
      request_id = request_id;
      result = result;
      request_pdu_type = request_pdu_type;
      from_id = from_id;
      to_id = to_id;
    })

  unfoldable pub serialize_to_byte_stream : DbWriteResponse → Out → Bool × Out
  serialize_to_byte_stream m = os_checked B do
    write_u32 m.request_id
    write_u32 m.result
    write_u16 m.request_pdu_type
    write_u32 m.from_id
    write_u32 m.to_id

  pub reads :
      (m0 m : DbWriteResponse)
      → InRange m
      → (rest : List Item)
      → parse_from_byte_stream m0 (reader (items m ++ rest)) ≡ (true, decode m0 m, reader rest)
  unfolding parse_from_byte_stream items decode
  reads m0 m h rest = rw (
    reads_u32 _ _ _ h.request_id,
    reads_u32 _ _ _ h.result,
    reads_u16 _ _ _ h.request_pdu_type,
    reads_u32 _ _ _ h.from_id,
    reads_u32 _ _ _ h.to_id,
    reader_good,
  )

  pub writes :
      (m : DbWriteResponse)
      → InRange m
      → Writes B (λ os. (serialize_to_byte_stream m os).1) (items m)
  unfolding serialize_to_byte_stream items
  writes m h =
      Writes-u32 B h.request_id
      ⨾ Writes-u32 B h.result
      ⨾ Writes-u16 B h.request_pdu_type
      ⨾ Writes-u32 B h.from_id
      ⨾ Writes-u32 B h.to_id

  unfoldable pub pdu_class : PduClass B DbWriteResponse
  unfolding byte_size parse_from_byte_stream serialize_to_byte_stream
  pdu_class = record {
    base = λ m. m.base;
    set_base = λ b m. record m { base = b };
    byte_size = byte_size;
    parse_from_byte_stream = parse_from_byte_stream;
    serialize_to_byte_stream = serialize_to_byte_stream;
  }

  unfoldable pub codec : Codec B pdu_class
  unfolding pdu_class decode
  codec = record {
    items = items;
    InRange = InRange;
    decode = decode;
    sizes = byte_size-items;
    reads = reads;
    writes = writes;
    result = λ m os. refl;
    base-decode = λ m0 m. refl;
  }

  -- A DbWriteResponse whose fields are in range, whose bytes are fewer than 2^32 and whose
  -- attached data are of the kind of the class is written by SerializeToArray into a buffer of its
  -- ByteSize(), and ParseFromArray of those bytes into a new object succeeds and leaves the fields
  -- that the class sends.
  pub db_write_response_transfer :
      (garbage : ℕ) (m : DbWriteResponse)
      → Fitting B codec m
      → m.base.attach_data_type ≡ attach_null
      → Arrives B pdu_class m (create garbage) (delivered garbage m)
  unfolding codec delivered received has_attach_data
  db_write_response_transfer garbage m f same = roundtrip B codec (create garbage) m f same
