-- ===== src/Proto/StopReceivePacket.antt =====
-- proto/stop_receive_packet.{h,cc}
use zattd.Base.{ℕ, ◌+◌, ◌<◌, ◌≡◌, refl, Bool, true, List, [], ◌∷◌, ◌++◌, arith, u32_mod, to_u32}
use zattd.Wire.Stream.{Item, u32, size, ByteStream}
use zattd.Wire.Rules.{◌>>=◌, pure, checked, os_checked, Writes, Writes-u32}
use zattd.Proto.MessageTypes.{message_stop_receive_packet}
use zattd.Proto.BasePdu.{
  BaseTeamTalkPdu, attach_null, new_base, base_byte_size, has_attach_data, PduClass,
}
use zattd.Proto.Codec.{Arrives, Codec, received, Fitting, roundtrip}

pub record StopReceivePacket : Type 0 where
  pub base : BaseTeamTalkPdu
  pub code : ℕ

-- What the constructor passes to the base class.
abbrev pub message_type : ℕ
message_type = message_stop_receive_packet

-- The constructor; what it leaves uninitialised holds `garbage`.
unfoldable pub create : ℕ → StopReceivePacket
unfolding new_base
create garbage = record { base = new_base attach_null garbage; code = garbage }

unfoldable pub byte_size : StopReceivePacket → ℕ
byte_size m = to_u32 (base_byte_size m.base + 4)

unfoldable pub items : StopReceivePacket → List Item
items m = u32 m.code ∷ []

pub record InRange (m : StopReceivePacket) : Type 0 where
  pub code : m.code < u32_mod

unfoldable pub decode : StopReceivePacket → StopReceivePacket → StopReceivePacket
decode m0 m = record m { base = m0.base }

pub byte_size-items :
    (m : StopReceivePacket) → byte_size m ≡ to_u32 (base_byte_size m.base + size (items m))
unfolding byte_size items
byte_size-items m = omega arith

-- What the receiver of `m` holds.
unfoldable pub delivered : ℕ → StopReceivePacket → StopReceivePacket
unfolding new_base create
delivered garbage m = record m { base = new_base attach_null garbage }

module _ (B : ByteStream) where
  open B use {Out, In, contents, read_u32, write_u32, reader, reads_u32, reader_good}

  unfoldable pub parse_from_byte_stream : StopReceivePacket → In → Bool × StopReceivePacket × In
  parse_from_byte_stream m = checked B do code ← read_u32 m.code; pure (record m { code = code })

  unfoldable pub serialize_to_byte_stream : StopReceivePacket → Out → Bool × Out
  serialize_to_byte_stream m = os_checked B do write_u32 m.code

  pub reads :
      (m0 m : StopReceivePacket)
      → InRange m
      → (rest : List Item)
      → parse_from_byte_stream m0 (reader (items m ++ rest)) ≡ (true, decode m0 m, reader rest)
  unfolding parse_from_byte_stream items decode
  reads m0 m h rest = rw (reads_u32 _ _ _ h.code, reader_good)

  pub writes :
      (m : StopReceivePacket)
      → InRange m
      → Writes B (λ os. (serialize_to_byte_stream m os).1) (items m)
  unfolding serialize_to_byte_stream items
  writes m h = Writes-u32 B h.code

  unfoldable pub pdu_class : PduClass B StopReceivePacket
  unfolding byte_size parse_from_byte_stream serialize_to_byte_stream
  pdu_class = record {
    base = λ m. m.base;
    set_base = λ b m. record m { base = b };
    byte_size = byte_size;
    parse_from_byte_stream = parse_from_byte_stream;
    serialize_to_byte_stream = serialize_to_byte_stream;
  }

  unfoldable pub codec : Codec B pdu_class
  unfolding pdu_class decode
  codec = record {
    items = items;
    InRange = InRange;
    decode = decode;
    sizes = byte_size-items;
    reads = reads;
    writes = writes;
    result = λ m os. refl;
    base-decode = λ m0 m. refl;
  }

  -- A fitting message with attached data of the kind of the class arrives in a new object.
  pub stop_receive_packet_transfer :
      (garbage : ℕ) (m : StopReceivePacket)
      → Fitting B codec m
      → m.base.attach_data_type ≡ attach_null
      → Arrives B pdu_class m (create garbage) (delivered garbage m)
  unfolding codec delivered received has_attach_data
  stop_receive_packet_transfer garbage m f same = roundtrip B codec (create garbage) m f same
