-- ===== src/Proto/DepartmentResponse.antt =====
-- proto/department_response.{h,cc}
use zattd.Base.{
  ℕ, ◌+◌, ◌<◌, ◌≡◌, refl, Bool, true, List, [], ◌∷◌, ◌++◌, map, arith, length, u32_mod, to_u32, All,
}
use zattd.Wire.Stream.{Item, u32, str, size, ByteStream}
use zattd.Wire.Rules.{
  ◌>>=◌, ◌>>◌, pure, checked, os_checked, Reads, Writes, Writes-u32, Writes-string, ◌⨾◌,
}
use zattd.Wire.Arrays.{
  array_items, object, put_object, parse_objectptr_array, serialize_objectptr_array,
  calculate_container_byte_size2, container_size2, Reads-objectptr_array, Writes-objectptr_array,
}
use zattd.Proto.BaseData.{DepartmentInfo, new_department_info, DepartmentInfoInRange}
use zattd.Proto.MessageTypes.{message_department_response}
use zattd.Proto.BasePdu.{
  BaseTeamTalkPdu, attach_db, new_base, base_byte_size, sizeof_string, has_attach_data, PduClass,
}
use zattd.Proto.Codec.{Arrives, Codec, received, Fitting, roundtrip}

unfoldable pub department_info_byte_size : DepartmentInfo → ℕ
department_info_byte_size v =
    to_u32 (4 + sizeof_string v.title + sizeof_string v.description + 4 + 4 + 4)

unfoldable pub department_info_items : DepartmentInfo → List Item
department_info_items v =
    u32 v.depart_id
    ∷ str v.title
    ∷ str v.description
    ∷ u32 v.parent_depart_id
    ∷ u32 v.leader
    ∷ u32 v.status
    ∷ []

-- What arrives of a member of the array.
unfoldable pub parsed_department_info : DepartmentInfo → DepartmentInfo
parsed_department_info v = v

department_info_byte_size-items :
    (v : DepartmentInfo) → department_info_byte_size v ≡ to_u32 (size (department_info_items v))
unfolding department_info_byte_size department_info_items
department_info_byte_size-items v = omega arith

pub record DepartmentResponse : Type 0 where
  pub base : BaseTeamTalkPdu
  pub req_user_id : ℕ
  pub depart_list : List DepartmentInfo

-- What the constructor passes to the base class.
abbrev pub message_type : ℕ
message_type = message_department_response

-- The constructor; what it leaves uninitialised holds `garbage`.
unfoldable pub create : ℕ → DepartmentResponse
unfolding new_base
create garbage = record {
  base = new_base attach_db garbage;
  req_user_id = garbage;
  depart_list = [];
}

unfoldable pub byte_size : DepartmentResponse → ℕ
byte_size m =
    calculate_container_byte_size2 department_info_byte_size (to_u32 (base_byte_size m.base + 4))
      m.depart_list

unfoldable pub items : DepartmentResponse → List Item
items m = u32 m.req_user_id ∷ array_items department_info_items m.depart_list

pub record InRange (m : DepartmentResponse) : Type 0 where
  pub req_user_id : m.req_user_id < u32_mod
  pub depart_list : All DepartmentInfoInRange m.depart_list
  pub depart_list_size : length m.depart_list < u32_mod

unfoldable pub decode : DepartmentResponse → DepartmentResponse → DepartmentResponse
decode m0 m = record m {
  base = m0.base;
  depart_list = m0.depart_list ++ map parsed_department_info m.depart_list;
}

pub byte_size-items :
    (m : DepartmentResponse) → byte_size m ≡ to_u32 (base_byte_size m.base + size (items m))
unfolding byte_size items
byte_size-items m = omega (
  arith,
  container_size2 department_info_items department_info_byte_size-items
      (to_u32 (base_byte_size m.base + 4)) m.depart_list,
)

-- What the receiver of `m` holds.
unfoldable pub delivered : ℕ → DepartmentResponse → DepartmentResponse
unfolding new_base create parsed_department_info
delivered garbage m = record m {
  base = record (new_base attach_db garbage) { attach_data = m.base.attach_data };
  depart_list = map parsed_department_info m.depart_list;
}

module _ (B : ByteStream) where
  open B use {
    Out, In, contents, read_u32, read_string, write_u32, write_string, reader, reads_u32,
    reads_string, reader_good,
  }

  unfoldable pub parse_department_info : DepartmentInfo → In → Bool × DepartmentInfo × In
  parse_department_info v = checked B do
    depart_id ← read_u32 v.depart_id
    title ← read_string v.title
    description ← read_string v.description
    parent_depart_id ← read_u32 v.parent_depart_id
    leader ← read_u32 v.leader
    status ← read_u32 v.status
    pure (record v {
      depart_id = depart_id;
      title = title;
      description = description;
      parent_depart_id = parent_depart_id;
      leader = leader;
      status = status;
    })

  unfoldable pub serialize_department_info : DepartmentInfo → Out → Bool × Out
  serialize_department_info v = os_checked B do
    write_u32 v.depart_id
    write_string v.title
    write_string v.description
    write_u32 v.parent_depart_id
    write_u32 v.leader
    write_u32 v.status

  Reads-department_info :
      (v : DepartmentInfo)
      → DepartmentInfoInRange v
      → Reads B
          (object B parse_department_info new_department_info)
          (department_info_items v)
          (parsed_department_info v)
  unfolding parse_department_info department_info_items parsed_department_info
  Reads-department_info v h = record {
    at = λ rest. rw (
      reads_u32 _ _ _ h.depart_id,
      reads_string _ _ _ h.title,
      reads_string _ _ _ h.description,
      reads_u32 _ _ _ h.parent_depart_id,
      reads_u32 _ _ _ h.leader,
      reads_u32 _ _ _ h.status,
    );
  }

  Writes-department_info :
      (v : DepartmentInfo)
      → DepartmentInfoInRange v
      → Writes B (put_object B serialize_department_info v) (department_info_items v)
  unfolding serialize_department_info department_info_items
  Writes-department_info v h =
      Writes-u32 B h.depart_id
      ⨾ Writes-string B h.title
      ⨾ Writes-string B h.description
      ⨾ Writes-u32 B h.parent_depart_id
      ⨾ Writes-u32 B h.leader
      ⨾ Writes-u32 B h.status

  unfoldable pub parse_from_byte_stream : DepartmentResponse → In → Bool × DepartmentResponse × In
  parse_from_byte_stream m = checked B do
    req_user_id ← read_u32 m.req_user_id
    depart_list ← parse_objectptr_array B parse_department_info new_department_info m.depart_list
    pure (record m { req_user_id = req_user_id; depart_list = depart_list })

  unfoldable pub serialize_to_byte_stream : DepartmentResponse → Out → Bool × Out
  serialize_to_byte_stream m = os_checked B do
    write_u32 m.req_user_id
    serialize_objectptr_array B serialize_department_info m.depart_list

  pub reads :
      (m0 m : DepartmentResponse)
      → InRange m
      → (rest : List Item)
      → parse_from_byte_stream m0 (reader (items m ++ rest)) ≡ (true, decode m0 m, reader rest)
  unfolding parse_from_byte_stream items decode
  reads m0 m h rest = rw (
    reads_u32 _ _ _ h.req_user_id,
    (Reads-objectptr_array B {P = DepartmentInfoInRange} department_info_items parse_department_info
          new_department_info parsed_department_info Reads-department_info m0.depart_list
          m.depart_list h.depart_list_size h.depart_list).at
        rest,
    reader_good,
  )

  pub writes :
      (m : DepartmentResponse)
      → InRange m
      → Writes B (λ os. (serialize_to_byte_stream m os).1) (items m)
  unfolding serialize_to_byte_stream items
  writes m h =
      Writes-u32 B h.req_user_id
      ⨾ Writes-objectptr_array B {P = DepartmentInfoInRange} department_info_items
          serialize_department_info Writes-department_info m.depart_list h.depart_list_size
          h.depart_list

  unfoldable pub pdu_class : PduClass B DepartmentResponse
  unfolding byte_size parse_from_byte_stream serialize_to_byte_stream
  pdu_class = record {
    base = λ m. m.base;
    set_base = λ b m. record m { base = b };
    byte_size = byte_size;
    parse_from_byte_stream = parse_from_byte_stream;
    serialize_to_byte_stream = serialize_to_byte_stream;
  }

  unfoldable pub codec : Codec B pdu_class
  unfolding pdu_class decode
  codec = record {
    items = items;
    InRange = InRange;
    decode = decode;
    sizes = byte_size-items;
    reads = reads;
    writes = writes;
    result = λ m os. refl;
    base-decode = λ m0 m. refl;
  }

  -- A DepartmentResponse whose fields are in range, whose bytes are fewer than 2^32 and whose
  -- attached data are of the kind of the class is written by SerializeToArray into a buffer of its
  -- ByteSize(), and ParseFromArray of those bytes into a new object succeeds and leaves the fields
  -- that the class sends.
  pub department_response_transfer :
      (garbage : ℕ) (m : DepartmentResponse)
      → Fitting B codec m
      → m.base.attach_data_type ≡ attach_db
      → Arrives B pdu_class m (create garbage) (delivered garbage m)
  unfolding codec delivered received has_attach_data
  department_response_transfer garbage m f same = roundtrip B codec (create garbage) m f same
