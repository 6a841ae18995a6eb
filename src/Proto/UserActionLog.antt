-- ===== src/Proto/UserActionLog.antt =====
-- proto/user_action_log.{h,cc}
use zattd.Base.{
  ℕ, ◌+◌, ◌<◌, ◌≡◌, refl, Bool, true, List, [], ◌∷◌, ◌++◌, arith, length, u32_mod, to_u32,
}
use zattd.Wire.Stream.{Item, u32, str, size, ByteStream}
use zattd.Wire.Rules.{
  ◌>>=◌, ◌>>◌, pure, checked, os_checked, Writes, Writes-u32, Writes-string, ◌⨾◌,
}
use zattd.Proto.MessageTypes.{message_user_action_log}
use zattd.Proto.BasePdu.{
  BaseTeamTalkPdu, attach_null, new_base, base_byte_size, sizeof_string, has_attach_data, PduClass,
}
use zattd.Proto.Codec.{Arrives, Codec, received, Fitting, roundtrip}

pub record UserActionLog : Type 0 where
  pub base : BaseTeamTalkPdu
  pub source : ℕ
  pub protocol : ℕ
  pub ip : List ℕ
  pub user_id : ℕ
  pub action_type : ℕ
  pub os_type : List ℕ
  pub user_agent : List ℕ
  pub flash_ver : List ℕ
  pub client_ver : List ℕ

-- What the constructor passes to the base class.
abbrev pub message_type : ℕ
message_type = message_user_action_log

-- The constructor; what it leaves uninitialised holds `garbage`.
unfoldable pub create : ℕ → UserActionLog
unfolding new_base
create garbage = record {
  base = new_base attach_null garbage;
  source = garbage;
  protocol = garbage;
  ip = [];
  user_id = garbage;
  action_type = garbage;
  os_type = [];
  user_agent = [];
  flash_ver = [];
  client_ver = [];
}

unfoldable pub byte_size : UserActionLog → ℕ
byte_size m = to_u32 (
    base_byte_size m.base
    + 4
    + 4
    + sizeof_string m.ip
    + 4
    + 4
    + sizeof_string m.os_type
    + sizeof_string m.user_agent
    + sizeof_string m.flash_ver
    + sizeof_string m.client_ver)

unfoldable pub items : UserActionLog → List Item
items m =
    u32 m.source
    ∷ u32 m.protocol
    ∷ str m.ip
    ∷ u32 m.user_id
    ∷ u32 m.action_type
    ∷ str m.os_type
    ∷ str m.user_agent
    ∷ str m.flash_ver
    ∷ str m.client_ver
    ∷ []

pub record InRange (m : UserActionLog) : Type 0 where
  pub source : m.source < u32_mod
  pub protocol : m.protocol < u32_mod
  pub ip : length m.ip < u32_mod
  pub user_id : m.user_id < u32_mod
  pub action_type : m.action_type < u32_mod
  pub os_type : length m.os_type < u32_mod
  pub user_agent : length m.user_agent < u32_mod
  pub flash_ver : length m.flash_ver < u32_mod
  pub client_ver : length m.client_ver < u32_mod

unfoldable pub decode : UserActionLog → UserActionLog → UserActionLog
decode m0 m = record m { base = m0.base }

pub byte_size-items :
    (m : UserActionLog) → byte_size m ≡ to_u32 (base_byte_size m.base + size (items m))
unfolding byte_size items
byte_size-items m = omega arith

-- What the receiver of `m` holds.
unfoldable pub delivered : ℕ → UserActionLog → UserActionLog
unfolding new_base create
delivered garbage m = record m { base = new_base attach_null garbage }

module _ (B : ByteStream) where
  open B use {
    Out, In, contents, read_u32, read_string, write_u32, write_string, reader, reads_u32,
    reads_string, reader_good,
  }

  unfoldable pub parse_from_byte_stream : UserActionLog → In → Bool × UserActionLog × In
  parse_from_byte_stream m = checked B do
    source ← read_u32 m.source
    protocol ← read_u32 m.protocol
    ip ← read_string m.ip
    user_id ← read_u32 m.user_id
    action_type ← read_u32 m.action_type
    os_type ← read_string m.os_type
    user_agent ← read_string m.user_agent
    flash_ver ← read_string m.flash_ver
    client_ver ← read_string m.client_ver
    pure (record m {
      source = source;
      protocol = protocol;
      ip = ip;
      user_id = user_id;
      action_type = action_type;
      os_type = os_type;
      user_agent = user_agent;
      flash_ver = flash_ver;
      client_ver = client_ver;
    })

  unfoldable pub serialize_to_byte_stream : UserActionLog → Out → Bool × Out
  serialize_to_byte_stream m = os_checked B do
    write_u32 m.source
    write_u32 m.protocol
    write_string m.ip
    write_u32 m.user_id
    write_u32 m.action_type
    write_string m.os_type
    write_string m.user_agent
    write_string m.flash_ver
    write_string m.client_ver

  pub reads :
      (m0 m : UserActionLog)
      → InRange m
      → (rest : List Item)
      → parse_from_byte_stream m0 (reader (items m ++ rest)) ≡ (true, decode m0 m, reader rest)
  unfolding parse_from_byte_stream items decode
  reads m0 m h rest = rw (
    reads_u32 _ _ _ h.source,
    reads_u32 _ _ _ h.protocol,
    reads_string _ _ _ h.ip,
    reads_u32 _ _ _ h.user_id,
    reads_u32 _ _ _ h.action_type,
    reads_string _ _ _ h.os_type,
    reads_string _ _ _ h.user_agent,
    reads_string _ _ _ h.flash_ver,
    reads_string _ _ _ h.client_ver,
    reader_good,
  )

  pub writes :
      (m : UserActionLog) → InRange m → Writes B (λ os. (serialize_to_byte_stream m os).1) (items m)
  unfolding serialize_to_byte_stream items
  writes m h =
      Writes-u32 B h.source
      ⨾ Writes-u32 B h.protocol
      ⨾ Writes-string B h.ip
      ⨾ Writes-u32 B h.user_id
      ⨾ Writes-u32 B h.action_type
      ⨾ Writes-string B h.os_type
      ⨾ Writes-string B h.user_agent
      ⨾ Writes-string B h.flash_ver
      ⨾ Writes-string B h.client_ver

  unfoldable pub pdu_class : PduClass B UserActionLog
  unfolding byte_size parse_from_byte_stream serialize_to_byte_stream
  pdu_class = record {
    base = λ m. m.base;
    set_base = λ b m. record m { base = b };
    byte_size = byte_size;
    parse_from_byte_stream = parse_from_byte_stream;
    serialize_to_byte_stream = serialize_to_byte_stream;
  }

  unfoldable pub codec : Codec B pdu_class
  unfolding pdu_class decode
  codec = record {
    items = items;
    InRange = InRange;
    decode = decode;
    sizes = byte_size-items;
    reads = reads;
    writes = writes;
    result = λ m os. refl;
    base-decode = λ m0 m. refl;
  }

  -- A fitting message with attached data of the kind of the class arrives in a new object.
  pub user_action_log_transfer :
      (garbage : ℕ) (m : UserActionLog)
      → Fitting B codec m
      → m.base.attach_data_type ≡ attach_null
      → Arrives B pdu_class m (create garbage) (delivered garbage m)
  unfolding codec delivered received has_attach_data
  user_action_log_transfer garbage m f same = roundtrip B codec (create garbage) m f same
