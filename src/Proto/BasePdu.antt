-- ===== src/Proto/BasePdu.antt =====
-- proto/base_teamtalk_pdu.{h,cc}: the base class of the messages, its attached data, and the two
-- methods that turn a message into bytes and back. A message class is a value of `PduClass`, the
-- virtual members that these two methods call.
use zattd.Base.{
  ℕ, ◌+◌, ◌%◌, Bool, true, false, not, ◌&&◌, ◌||◌, Option, none, some, List, [], if◌then◌else◌,
  length, to_u32,
}
use zattd.Wire.Stream.{ByteStream}

-- BaseAttachData::AttachDataType
pub data AttachDataType : Type 0 where
  attach_null attach_db attach_pdu : AttachDataType

pub record BaseTeamTalkPdu : Type 0 where
  pub attach_data_type : AttachDataType
  pub attach_data : List ℕ
  pub reserved : ℕ

-- The constructor, on a message whose other fields hold `garbage`.
unfoldable pub new_base : AttachDataType → ℕ → BaseTeamTalkPdu
new_base type garbage = record {
  attach_data_type = type;
  attach_data = [];
  reserved = garbage % 65536;
}

abbrev pub has_type : AttachDataType → Bool
has_type attach_null = false
has_type attach_db = true
has_type attach_pdu = true

-- SIZEOF_STRING
abbrev pub sizeof_string : List ℕ → ℕ
sizeof_string s = 4 + length s

unfoldable pub base_byte_size : BaseTeamTalkPdu → ℕ
base_byte_size b = if has_type b.attach_data_type then to_u32 (sizeof_string b.attach_data) else 0

is_db : AttachDataType → Bool
is_db attach_db = true
is_db attach_null = false
is_db attach_pdu = false

is_pdu : AttachDataType → Bool
is_pdu attach_pdu = true
is_pdu attach_null = false
is_pdu attach_db = false

unfoldable pub has_attach_data : BaseTeamTalkPdu → Bool
unfolding is_db is_pdu
has_attach_data b = is_db b.attach_data_type || is_pdu b.attach_data_type

-- SetAttachData, without the debug check.
unfoldable pub set_attach_data : BaseTeamTalkPdu → List ℕ → BaseTeamTalkPdu
unfolding has_attach_data
set_attach_data b s = if has_attach_data b then record b { attach_data = s } else b

unfoldable pub get_attach_data : BaseTeamTalkPdu → Option (List ℕ)
unfolding has_attach_data
get_attach_data b = if has_attach_data b then some b.attach_data else none

module _ (B : ByteStream) where
  open B use {In, Out, open_in, fail, read_string, open_out, os_fail, write_string}

  pub record PduClass (M : Type 0) : Type 0 where
    pub base : M → BaseTeamTalkPdu
    pub set_base : BaseTeamTalkPdu → M → M
    pub byte_size : M → ℕ
    pub parse_from_byte_stream : M → In → Bool × M × In
    pub serialize_to_byte_stream : M → Out → Bool × Out

  module _ {M : Type 0} (C : PduClass M) where
    open C use {base, set_base, parse_from_byte_stream, serialize_to_byte_stream}

    parse_attach_data : M → In → Bool × M
    parse_attach_data m is =
        let (s, is') = read_string (base m).attach_data is in
        (not (fail is'), set_base (record (base m) { attach_data = s }) m)

    unfoldable pub parse_from_array : M → List ℕ → Bool × M
    unfolding parse_attach_data
    parse_from_array m bytes =
        let (result, m', is) = parse_from_byte_stream m (open_in bytes) in
        if result && has_attach_data (base m') then parse_attach_data m' is else (result, m')

    serialize_attach_data : M → Out → Bool × Out
    serialize_attach_data m os =
        let os' = write_string (base m).attach_data os in (not (os_fail os'), os')

    -- The second part is the stream over the buffer of `data_len` bytes.
    unfoldable pub serialize_to_array : M → ℕ → Bool × Out
    unfolding serialize_attach_data
    serialize_to_array m data_len =
        let (result, os) = serialize_to_byte_stream m (open_out data_len) in
        if result && has_attach_data (base m) then serialize_attach_data m os else (result, os)
