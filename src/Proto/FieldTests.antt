-- ===== src/Proto/FieldTests.antt =====
-- What parsing does on any stream, at concrete streams.
use zattd.Base.{ℕ, List, [], ◌∷◌, ◌≡◌, length, ◌+◌}
use zattd.Wire.Bytes.{bytes}
use zattd.Wire.Stream.{ByteStream}
use zattd.Wire.Arrays.{parse_objectptr_array, parse_basictype_array, length-parse_arrays}
use zattd.Proto.BaseData.{new_server_msg}
use zattd.Proto.MsgListResponse
use zattd.Proto.GroupChangeMemberRequest.{create, parse_from_byte_stream, change_type-unread}

abbrev some_bytes : ByteStream.In bytes
some_bytes =
    ByteStream.open_in bytes (1 ∷ 0 ∷ 0 ∷ 0 ∷ 5 ∷ 0 ∷ 0 ∷ 0 ∷ 9 ∷ 0 ∷ 0 ∷ 0 ∷ 0 ∷ 0 ∷ 0 ∷ 0 ∷ [])

change_type-unread_example :
    (parse_from_byte_stream bytes (create 7) some_bytes).1.change_type ≡ (create 7).change_type
change_type-unread_example = change_type-unread bytes (create 7) some_bytes

-- The size of an array of five, and no member.
abbrev five_promised : ByteStream.In bytes
five_promised = ByteStream.open_in bytes (5 ∷ 0 ∷ 0 ∷ 0 ∷ [])

abbrev one_number : List ℕ
one_number = 8 ∷ []

length-parse_arrays_example :
    (length
        (parse_objectptr_array bytes
          (MsgListResponse.parse_server_msg bytes)
          new_server_msg
          []
          five_promised).0
      ≡ 0 + (ByteStream.read_u32 bytes 0 five_promised).0)
    × (length (parse_basictype_array bytes one_number five_promised).0
        ≡ 1 + (ByteStream.read_u32 bytes 0 five_promised).0)
length-parse_arrays_example =
    length-parse_arrays bytes (MsgListResponse.parse_server_msg bytes) new_server_msg [] one_number
      five_promised
