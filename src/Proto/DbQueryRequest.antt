-- ===== src/Proto/DbQueryRequest.antt =====
-- proto/db_query_request.{h,cc}
use zattd.Base.{
  ℕ, ◌+◌, ◌<◌, ◌≡◌, refl, Bool, true, List, [], ◌∷◌, ◌++◌, arith, length, u32_mod, to_u32,
}
use zattd.Wire.Stream.{Item, u32, str, size, ByteStream}
use zattd.Wire.Rules.{
  ◌>>=◌, ◌>>◌, pure, checked, os_checked, Writes, Writes-u32, Writes-string, ◌⨾◌,
}
use zattd.Proto.MessageTypes.{message_db_query_request}
use zattd.Proto.BasePdu.{
  BaseTeamTalkPdu, attach_db, new_base, base_byte_size, sizeof_string, has_attach_data, PduClass,
}
use zattd.Proto.Codec.{Arrives, Codec, received, Fitting, roundtrip}

pub record DbQueryRequest : Type 0 where
  pub base : BaseTeamTalkPdu
  pub seq_no : ℕ
  pub user_id : ℕ
  pub query_data : List ℕ

-- What the constructor passes to the base class.
abbrev pub message_type : ℕ
message_type = message_db_query_request

-- The constructor; what it leaves uninitialised holds `garbage`.
unfoldable pub create : ℕ → DbQueryRequest
unfolding new_base
create garbage = record {
  base = new_base attach_db garbage;
  seq_no = garbage;
  user_id = garbage;
  query_data = [];
}

unfoldable pub byte_size : DbQueryRequest → ℕ
byte_size m = to_u32 (base_byte_size m.base + 4 + 4 + sizeof_string m.query_data)

unfoldable pub items : DbQueryRequest → List Item
items m = u32 m.seq_no ∷ u32 m.user_id ∷ str m.query_data ∷ []

pub record InRange (m : DbQueryRequest) : Type 0 where
  pub seq_no : m.seq_no < u32_mod
  pub user_id : m.user_id < u32_mod
  pub query_data : length m.query_data < u32_mod

unfoldable pub decode : DbQueryRequest → DbQueryRequest → DbQueryRequest
decode m0 m = record m { base = m0.base }

pub byte_size-items :
    (m : DbQueryRequest) → byte_size m ≡ to_u32 (base_byte_size m.base + size (items m))
unfolding byte_size items
byte_size-items m = omega arith

-- What the receiver of `m` holds.
unfoldable pub delivered : ℕ → DbQueryRequest → DbQueryRequest
unfolding new_base create
delivered garbage m = record m {
  base = record (new_base attach_db garbage) { attach_data = m.base.attach_data };
}

module _ (B : ByteStream) where
  open B use {
    Out, In, contents, read_u32, read_string, write_u32, write_string, reader, reads_u32,
    reads_string, reader_good,
  }

  unfoldable pub parse_from_byte_stream : DbQueryRequest → In → Bool × DbQueryRequest × In
  parse_from_byte_stream m = checked B do
    seq_no ← read_u32 m.seq_no
    user_id ← read_u32 m.user_id
    query_data ← read_string m.query_data
    pure (record m { seq_no = seq_no; user_id = user_id; query_data = query_data })

  unfoldable pub serialize_to_byte_stream : DbQueryRequest → Out → Bool × Out
  serialize_to_byte_stream m =
      os_checked B do write_u32 m.seq_no; write_u32 m.user_id; write_string m.query_data

  pub reads :
      (m0 m : DbQueryRequest)
      → InRange m
      → (rest : List Item)
      → parse_from_byte_stream m0 (reader (items m ++ rest)) ≡ (true, decode m0 m, reader rest)
  unfolding parse_from_byte_stream items decode
  reads m0 m h rest = rw (
    reads_u32 _ _ _ h.seq_no,
    reads_u32 _ _ _ h.user_id,
    reads_string _ _ _ h.query_data,
    reader_good,
  )

  pub writes :
      (m : DbQueryRequest)
      → InRange m
      → Writes B (λ os. (serialize_to_byte_stream m os).1) (items m)
  unfolding serialize_to_byte_stream items
  writes m h = Writes-u32 B h.seq_no ⨾ Writes-u32 B h.user_id ⨾ Writes-string B h.query_data

  unfoldable pub pdu_class : PduClass B DbQueryRequest
  unfolding byte_size parse_from_byte_stream serialize_to_byte_stream
  pdu_class = record {
    base = λ m. m.base;
    set_base = λ b m. record m { base = b };
    byte_size = byte_size;
    parse_from_byte_stream = parse_from_byte_stream;
    serialize_to_byte_stream = serialize_to_byte_stream;
  }

  unfoldable pub codec : Codec B pdu_class
  unfolding pdu_class decode
  codec = record {
    items = items;
    InRange = InRange;
    decode = decode;
    sizes = byte_size-items;
    reads = reads;
    writes = writes;
    result = λ m os. refl;
    base-decode = λ m0 m. refl;
  }

  -- A fitting message with attached data of the kind of the class arrives in a new object.
  pub db_query_request_transfer :
      (garbage : ℕ) (m : DbQueryRequest)
      → Fitting B codec m
      → m.base.attach_data_type ≡ attach_db
      → Arrives B pdu_class m (create garbage) (delivered garbage m)
  unfolding codec delivered received has_attach_data
  db_query_request_transfer garbage m f same = roundtrip B codec (create garbage) m f same
