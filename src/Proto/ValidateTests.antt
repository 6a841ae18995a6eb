-- ===== src/Proto/ValidateTests.antt =====
-- ValidateResponse at concrete responses, over a concrete stream of bytes.
use zattd.Base.{[], ◌∷◌, ◌++◌, ◌≡◌, refl, true, none, some, arith}
use zattd.Wire.Stream.{str, u32, ByteStream}
use zattd.Wire.Rules.{Writes}
use zattd.Wire.Bytes.{bytes}
use zattd.Proto.BasePdu.{attach_db}
use zattd.Proto.BaseData.{UserInfo, new_user_info, UserInfoInRange}
use zattd.Proto.ValidateResponse.{
  ValidateResponse, create, user_items, parse_from_byte_stream, serialize_to_byte_stream,
  validated_user-unread, validated_user-written,
}

abbrev a_user : UserInfo
a_user = record new_user_info { user_id = 5; nick_name = 65 ∷ [] }

a_user-InRange : UserInfoInRange a_user
a_user-InRange = record {
  user_id = ground arith;
  name = ground arith;
  nick_name = ground arith;
  avatar_url = ground arith;
  title = ground arith;
  position = ground arith;
  role_status = ground arith;
  sex = ground arith;
  depart_id = ground arith;
  job_num = ground arith;
  telphone = ground arith;
  email = ground arith;
  user_updated = ground arith;
}

abbrev a_response : ValidateResponse
a_response = record {
  base = record { attach_data_type = attach_db; attach_data = []; reserved = 0 };
  user_name = 66 ∷ [];
  result = 0;
  user = some a_user;
}

validated_user-unread_example :
    parse_from_byte_stream bytes
      (create 7)
      (ByteStream.reader bytes (str (66 ∷ []) ∷ u32 0 ∷ user_items a_user ++ []))
    ≡ (
      true,
      record (create 7) { user_name = 66 ∷ []; result = 0 },
      ByteStream.reader bytes (user_items a_user ++ []),
    )
validated_user-unread_example =
    validated_user-unread bytes (create 7) (66 ∷ []) a_user [] (ground arith)

validated_user-written_example :
    Writes bytes
      (λ os. (elim (serialize_to_byte_stream bytes a_response os) [ none ↦ os | some r ↦ r.1 ]))
      (str (66 ∷ []) ∷ u32 0 ∷ user_items a_user)
validated_user-written_example =
    validated_user-written bytes a_response a_user refl refl (ground arith) a_user-InRange
