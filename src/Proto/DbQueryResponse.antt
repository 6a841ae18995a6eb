-- ===== src/Proto/DbQueryResponse.antt =====
-- proto/db_query_response.{h,cc}
use zattd.Base.{
  ℕ, ◌+◌, ◌<◌, ◌≡◌, refl, Bool, true, List, [], ◌∷◌, ◌++◌, arith, length, u32_mod, to_u32,
}
use zattd.Wire.Stream.{Item, u32, str, size, ByteStream}
use zattd.Wire.Rules.{
  ◌>>=◌, ◌>>◌, pure, checked, os_checked, Writes, Writes-u32, Writes-string, ◌⨾◌,
}
use zattd.Proto.MessageTypes.{message_db_query_response}
use zattd.Proto.BasePdu.{
  BaseTeamTalkPdu, attach_db, new_base, base_byte_size, sizeof_string, has_attach_data, PduClass,
}
use zattd.Proto.Codec.{Arrives, Codec, received, Fitting, roundtrip}

pub record DbQueryResponse : Type 0 where
  pub base : BaseTeamTalkPdu
  pub seq_no : ℕ
  pub user_id : ℕ
  pub result_data : List ℕ

-- What the constructor passes to the base class.
abbrev pub message_type : ℕ
message_type = message_db_query_response

-- The constructor; what it leaves uninitialised holds `garbage`.
unfoldable pub create : ℕ → DbQueryResponse
unfolding new_base
create garbage = record {
  base = new_base attach_db garbage;
  seq_no = garbage;
  user_id = garbage;
  result_data = [];
}

unfoldable pub byte_size : DbQueryResponse → ℕ
byte_size m = to_u32 (base_byte_size m.base + 4 + 4 + sizeof_string m.result_data)

unfoldable pub items : DbQueryResponse → List Item
items m = u32 m.seq_no ∷ u32 m.user_id ∷ str m.result_data ∷ []

pub record InRange (m : DbQueryResponse) : Type 0 where
  pub seq_no : m.seq_no < u32_mod
  pub user_id : m.user_id < u32_mod
  pub result_data : length m.result_data < u32_mod

unfoldable pub decode : DbQueryResponse → DbQueryResponse → DbQueryResponse
decode m0 m = record m { base = m0.base }

pub byte_size-items :
    (m : DbQueryResponse) → byte_size m ≡ to_u32 (base_byte_size m.base + size (items m))
unfolding byte_size items
byte_size-items m = omega arith

-- What the receiver of `m` holds.
unfoldable pub delivered : ℕ → DbQueryResponse → DbQueryResponse
unfolding new_base create
delivered garbage m = record m {
  base = record (new_base attach_db garbage) { attach_data = m.base.attach_data };
}

module _ (B : ByteStream) where
  open B use {
    Out, In, contents, read_u32, read_string, write_u32, write_string, reader, reads_u32,
    reads_string, reader_good,
  }

  unfoldable pub parse_from_byte_stream : DbQueryResponse → In → Bool × DbQueryResponse × In
  parse_from_byte_stream m = checked B do
    seq_no ← read_u32 m.seq_no
    user_id ← read_u32 m.user_id
    result_data ← read_string m.result_data
    pure (record m { seq_no = seq_no; user_id = user_id; result_data = result_data })

  unfoldable pub serialize_to_byte_stream : DbQueryResponse → Out → Bool × Out
  serialize_to_byte_stream m =
      os_checked B do write_u32 m.seq_no; write_u32 m.user_id; write_string m.result_data

  pub reads :
      (m0 m : DbQueryResponse)
      → InRange m
      → (rest : List Item)
      → parse_from_byte_stream m0 (reader (items m ++ rest)) ≡ (true, decode m0 m, reader rest)
  unfolding parse_from_byte_stream items decode
  reads m0 m h rest = rw (
    reads_u32 _ _ _ h.seq_no,
    reads_u32 _ _ _ h.user_id,
    reads_string _ _ _ h.result_data,
    reader_good,
  )

  pub writes :
      (m : DbQueryResponse)
      → InRange m
      → Writes B (λ os. (serialize_to_byte_stream m os).1) (items m)
  unfolding serialize_to_byte_stream items
  writes m h = Writes-u32 B h.seq_no ⨾ Writes-u32 B h.user_id ⨾ Writes-string B h.result_data

  unfoldable pub pdu_class : PduClass B DbQueryResponse
  unfolding byte_size parse_from_byte_stream serialize_to_byte_stream
  pdu_class = record {
    base = λ m. m.base;
    set_base = λ b m. record m { base = b };
    byte_size = byte_size;
    parse_from_byte_stream = parse_from_byte_stream;
    serialize_to_byte_stream = serialize_to_byte_stream;
  }

  unfoldable pub codec : Codec B pdu_class
  unfolding pdu_class decode
  codec = record {
    items = items;
    InRange = InRange;
    decode = decode;
    sizes = byte_size-items;
    reads = reads;
    writes = writes;
    result = λ m os. refl;
    base-decode = λ m0 m. refl;
  }

  -- A fitting message with attached data of the kind of the class arrives in a new object.
  pub db_query_response_transfer :
      (garbage : ℕ) (m : DbQueryResponse)
      → Fitting B codec m
      → m.base.attach_data_type ≡ attach_db
      → Arrives B pdu_class m (create garbage) (delivered garbage m)
  unfolding codec delivered received has_attach_data
  db_query_response_transfer garbage m f same = roundtrip B codec (create garbage) m f same
