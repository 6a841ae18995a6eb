-- ===== src/Proto/UsersInfoRequest.antt =====
-- proto/users_info_request.{h,cc}
use zattd.Base.{
  ℕ, ◌+◌, ◌<◌, ◌≡◌, refl, Bool, true, List, [], ◌∷◌, ◌++◌, arith, length, u32_mod, to_u32, All,
}
use zattd.Wire.Stream.{Item, u32, size, ByteStream}
use zattd.Wire.Rules.{◌>>=◌, ◌>>◌, pure, checked, os_checked, Writes, Writes-u32, ◌⨾◌}
use zattd.Wire.Arrays.{
  array_items, uint32_items, IsUint32, parse_basictype_array, serialize_basictype_array,
  calculate_container_byte_size, container_size, Reads-basictype_array, Writes-basictype_array,
}
use zattd.Proto.MessageTypes.{message_users_info_request}
use zattd.Proto.BasePdu.{
  BaseTeamTalkPdu, attach_db, new_base, base_byte_size, has_attach_data, PduClass,
}
use zattd.Proto.Codec.{Arrives, Codec, received, Fitting, roundtrip}

pub record UsersInfoRequest : Type 0 where
  pub base : BaseTeamTalkPdu
  pub from_user_id : ℕ
  pub user_id_list : List ℕ

-- What the constructor passes to the base class.
abbrev pub message_type : ℕ
message_type = message_users_info_request

-- The constructor; what it leaves uninitialised holds `garbage`.
unfoldable pub create : ℕ → UsersInfoRequest
unfolding new_base
create garbage = record {
  base = new_base attach_db garbage;
  from_user_id = garbage;
  user_id_list = [];
}

unfoldable pub byte_size : UsersInfoRequest → ℕ
byte_size m = to_u32 (base_byte_size m.base + 4 + calculate_container_byte_size m.user_id_list)

unfoldable pub items : UsersInfoRequest → List Item
items m = u32 m.from_user_id ∷ array_items uint32_items m.user_id_list

pub record InRange (m : UsersInfoRequest) : Type 0 where
  pub from_user_id : m.from_user_id < u32_mod
  pub user_id_list : All IsUint32 m.user_id_list
  pub user_id_list_size : length m.user_id_list < u32_mod

unfoldable pub decode : UsersInfoRequest → UsersInfoRequest → UsersInfoRequest
decode m0 m = record m { base = m0.base; user_id_list = m0.user_id_list ++ m.user_id_list }

pub byte_size-items :
    (m : UsersInfoRequest) → byte_size m ≡ to_u32 (base_byte_size m.base + size (items m))
unfolding byte_size items
byte_size-items m = omega (arith, container_size m.user_id_list)

-- What the receiver of `m` holds.
unfoldable pub delivered : ℕ → UsersInfoRequest → UsersInfoRequest
unfolding new_base create
delivered garbage m = record m {
  base = record (new_base attach_db garbage) { attach_data = m.base.attach_data };
}

module _ (B : ByteStream) where
  open B use {Out, In, contents, read_u32, write_u32, reader, reads_u32, reader_good}

  unfoldable pub parse_from_byte_stream : UsersInfoRequest → In → Bool × UsersInfoRequest × In
  parse_from_byte_stream m = checked B do
    from_user_id ← read_u32 m.from_user_id
    user_id_list ← parse_basictype_array B m.user_id_list
    pure (record m { from_user_id = from_user_id; user_id_list = user_id_list })

  unfoldable pub serialize_to_byte_stream : UsersInfoRequest → Out → Bool × Out
  serialize_to_byte_stream m =
      os_checked B do write_u32 m.from_user_id; serialize_basictype_array B m.user_id_list

  pub reads :
      (m0 m : UsersInfoRequest)
      → InRange m
      → (rest : List Item)
      → parse_from_byte_stream m0 (reader (items m ++ rest)) ≡ (true, decode m0 m, reader rest)
  unfolding parse_from_byte_stream items decode
  reads m0 m h rest = rw (
    reads_u32 _ _ _ h.from_user_id,
    (Reads-basictype_array B m0.user_id_list m.user_id_list h.user_id_list_size h.user_id_list).at
        rest,
    reader_good,
  )

  pub writes :
      (m : UsersInfoRequest)
      → InRange m
      → Writes B (λ os. (serialize_to_byte_stream m os).1) (items m)
  unfolding serialize_to_byte_stream items
  writes m h =
      Writes-u32 B h.from_user_id
      ⨾ Writes-basictype_array B m.user_id_list h.user_id_list_size h.user_id_list

  unfoldable pub pdu_class : PduClass B UsersInfoRequest
  unfolding byte_size parse_from_byte_stream serialize_to_byte_stream
  pdu_class = record {
    base = λ m. m.base;
    set_base = λ b m. record m { base = b };
    byte_size = byte_size;
    parse_from_byte_stream = parse_from_byte_stream;
    serialize_to_byte_stream = serialize_to_byte_stream;
  }

  unfoldable pub codec : Codec B pdu_class
  unfolding pdu_class decode
  codec = record {
    items = items;
    InRange = InRange;
    decode = decode;
    sizes = byte_size-items;
    reads = reads;
    writes = writes;
    result = λ m os. refl;
    base-decode = λ m0 m. refl;
  }

  -- A fitting message with attached data of the kind of the class arrives in a new object.
  pub users_info_request_transfer :
      (garbage : ℕ) (m : UsersInfoRequest)
      → Fitting B codec m
      → m.base.attach_data_type ≡ attach_db
      → Arrives B pdu_class m (create garbage) (delivered garbage m)
  unfolding codec delivered received has_attach_data
  users_info_request_transfer garbage m f same = roundtrip B codec (create garbage) m f same
