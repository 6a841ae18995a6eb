-- ===== src/Proto/ValidateRequest.antt =====
-- proto/validate_request.{h,cc}
use zattd.Base.{
  ℕ, ◌+◌, ◌<◌, ◌≡◌, refl, Bool, true, List, [], ◌∷◌, ◌++◌, arith, length, u32_mod, to_u32,
}
use zattd.Wire.Stream.{Item, str, size, ByteStream}
use zattd.Wire.Rules.{◌>>=◌, ◌>>◌, pure, checked, os_checked, Writes, Writes-string, ◌⨾◌}
use zattd.Proto.MessageTypes.{message_validate_request}
use zattd.Proto.BasePdu.{
  BaseTeamTalkPdu, attach_db, new_base, base_byte_size, sizeof_string, has_attach_data, PduClass,
}
use zattd.Proto.Codec.{Arrives, Codec, received, Fitting, roundtrip}

pub record ValidateRequest : Type 0 where
  pub base : BaseTeamTalkPdu
  pub user_name : List ℕ
  pub password : List ℕ

-- What the constructor passes to the base class.
abbrev pub message_type : ℕ
message_type = message_validate_request

-- The constructor; what it leaves uninitialised holds `garbage`.
unfoldable pub create : ℕ → ValidateRequest
unfolding new_base
create garbage = record { base = new_base attach_db garbage; user_name = []; password = [] }

unfoldable pub byte_size : ValidateRequest → ℕ
byte_size m = to_u32 (base_byte_size m.base + sizeof_string m.user_name + sizeof_string m.password)

unfoldable pub items : ValidateRequest → List Item
items m = str m.user_name ∷ str m.password ∷ []

pub record InRange (m : ValidateRequest) : Type 0 where
  pub user_name : length m.user_name < u32_mod
  pub password : length m.password < u32_mod

unfoldable pub decode : ValidateRequest → ValidateRequest → ValidateRequest
decode m0 m = record m { base = m0.base }

pub byte_size-items :
    (m : ValidateRequest) → byte_size m ≡ to_u32 (base_byte_size m.base + size (items m))
unfolding byte_size items
byte_size-items m = omega arith

-- What the receiver of `m` holds.
unfoldable pub delivered : ℕ → ValidateRequest → ValidateRequest
unfolding new_base create
delivered garbage m = record m {
  base = record (new_base attach_db garbage) { attach_data = m.base.attach_data };
}

module _ (B : ByteStream) where
  open B use {Out, In, contents, read_string, write_string, reader, reads_string, reader_good}

  unfoldable pub parse_from_byte_stream : ValidateRequest → In → Bool × ValidateRequest × In
  parse_from_byte_stream m = checked B do
    user_name ← read_string m.user_name
    password ← read_string m.password
    pure (record m { user_name = user_name; password = password })

  unfoldable pub serialize_to_byte_stream : ValidateRequest → Out → Bool × Out
  serialize_to_byte_stream m = os_checked B do write_string m.user_name; write_string m.password

  pub reads :
      (m0 m : ValidateRequest)
      → InRange m
      → (rest : List Item)
      → parse_from_byte_stream m0 (reader (items m ++ rest)) ≡ (true, decode m0 m, reader rest)
  unfolding parse_from_byte_stream items decode
  reads m0 m h rest =
      rw (reads_string _ _ _ h.user_name, reads_string _ _ _ h.password, reader_good)

  pub writes :
      (m : ValidateRequest)
      → InRange m
      → Writes B (λ os. (serialize_to_byte_stream m os).1) (items m)
  unfolding serialize_to_byte_stream items
  writes m h = Writes-string B h.user_name ⨾ Writes-string B h.password

  unfoldable pub pdu_class : PduClass B ValidateRequest
  unfolding byte_size parse_from_byte_stream serialize_to_byte_stream
  pdu_class = record {
    base = λ m. m.base;
    set_base = λ b m. record m { base = b };
    byte_size = byte_size;
    parse_from_byte_stream = parse_from_byte_stream;
    serialize_to_byte_stream = serialize_to_byte_stream;
  }

  unfoldable pub codec : Codec B pdu_class
  unfolding pdu_class decode
  codec = record {
    items = items;
    InRange = InRange;
    decode = decode;
    sizes = byte_size-items;
    reads = reads;
    writes = writes;
    result = λ m os. refl;
    base-decode = λ m0 m. refl;
  }

  -- A fitting message with attached data of the kind of the class arrives in a new object.
  pub validate_request_transfer :
      (garbage : ℕ) (m : ValidateRequest)
      → Fitting B codec m
      → m.base.attach_data_type ≡ attach_db
      → Arrives B pdu_class m (create garbage) (delivered garbage m)
  unfolding codec delivered received has_attach_data
  validate_request_transfer garbage m f same = roundtrip B codec (create garbage) m f same
