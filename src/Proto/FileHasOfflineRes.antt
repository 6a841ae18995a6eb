-- ===== src/Proto/FileHasOfflineRes.antt =====
-- proto/file_has_offline_res.{h,cc}
use zattd.Base.{
  ℕ, ◌+◌, ◌<◌, ◌≡◌, refl, Bool, true, List, [], ◌∷◌, ◌++◌, map, arith, length, u32_mod, to_u32, All,
}
use zattd.Wire.Stream.{Item, u32, str, size, ByteStream}
use zattd.Wire.Rules.{
  ◌>>=◌, ◌>>◌, pure, checked, os_checked, Reads, Writes, Writes-u32, Writes-string, ◌⨾◌,
}
use zattd.Wire.Arrays.{
  array_items, object, put_object, parse_objectptr_array, serialize_objectptr_array,
  calculate_container_byte_size2, container_size2, Reads-objectptr_array, Writes-objectptr_array,
}
use zattd.Proto.BaseData.{OfflineFile, new_offline_file, OfflineFileInRange}
use zattd.Proto.MessageTypes.{message_file_has_offline_res}
use zattd.Proto.BasePdu.{
  BaseTeamTalkPdu, attach_db, new_base, base_byte_size, sizeof_string, has_attach_data, PduClass,
}
use zattd.Proto.Codec.{Arrives, Codec, received, Fitting, roundtrip}

unfoldable pub offline_file_byte_size : OfflineFile → ℕ
offline_file_byte_size v = to_u32 (4 + sizeof_string v.task_id + sizeof_string v.file_name + 4)

unfoldable pub offline_file_items : OfflineFile → List Item
offline_file_items v = u32 v.from_id ∷ str v.task_id ∷ str v.file_name ∷ u32 v.file_size ∷ []

-- What arrives of a member of the array.
unfoldable pub parsed_offline_file : OfflineFile → OfflineFile
parsed_offline_file v = v

offline_file_byte_size-items :
    (v : OfflineFile) → offline_file_byte_size v ≡ to_u32 (size (offline_file_items v))
unfolding offline_file_byte_size offline_file_items
offline_file_byte_size-items v = omega arith

pub record FileHasOfflineRes : Type 0 where
  pub base : BaseTeamTalkPdu
  pub req_user_id : ℕ
  pub file_list : List OfflineFile

-- What the constructor passes to the base class.
abbrev pub message_type : ℕ
message_type = message_file_has_offline_res

-- The constructor; what it leaves uninitialised holds `garbage`.
unfoldable pub create : ℕ → FileHasOfflineRes
unfolding new_base
create garbage = record { base = new_base attach_db garbage; req_user_id = garbage; file_list = [] }

unfoldable pub byte_size : FileHasOfflineRes → ℕ
byte_size m =
    calculate_container_byte_size2 offline_file_byte_size (to_u32 (base_byte_size m.base + 4))
      m.file_list

unfoldable pub items : FileHasOfflineRes → List Item
items m = u32 m.req_user_id ∷ array_items offline_file_items m.file_list

pub record InRange (m : FileHasOfflineRes) : Type 0 where
  pub req_user_id : m.req_user_id < u32_mod
  pub file_list : All OfflineFileInRange m.file_list
  pub file_list_size : length m.file_list < u32_mod

unfoldable pub decode : FileHasOfflineRes → FileHasOfflineRes → FileHasOfflineRes
decode m0 m = record m {
  base = m0.base;
  file_list = m0.file_list ++ map parsed_offline_file m.file_list;
}

pub byte_size-items :
    (m : FileHasOfflineRes) → byte_size m ≡ to_u32 (base_byte_size m.base + size (items m))
unfolding byte_size items
byte_size-items m = omega (
  arith,
  container_size2 offline_file_items offline_file_byte_size-items
      (to_u32 (base_byte_size m.base + 4)) m.file_list,
)

-- What the receiver of `m` holds.
unfoldable pub delivered : ℕ → FileHasOfflineRes → FileHasOfflineRes
unfolding new_base create parsed_offline_file
delivered garbage m = record m {
  base = record (new_base attach_db garbage) { attach_data = m.base.attach_data };
  file_list = map parsed_offline_file m.file_list;
}

module _ (B : ByteStream) where
  open B use {
    Out, In, contents, read_u32, read_string, write_u32, write_string, reader, reads_u32,
    reads_string, reader_good,
  }

  unfoldable pub parse_offline_file : OfflineFile → In → Bool × OfflineFile × In
  parse_offline_file v = checked B do
    from_id ← read_u32 v.from_id
    task_id ← read_string v.task_id
    file_name ← read_string v.file_name
    file_size ← read_u32 v.file_size
    pure (record v {
      from_id = from_id;
      task_id = task_id;
      file_name = file_name;
      file_size = file_size;
    })

  unfoldable pub serialize_offline_file : OfflineFile → Out → Bool × Out
  serialize_offline_file v = os_checked B do
    write_u32 v.from_id
    write_string v.task_id
    write_string v.file_name
    write_u32 v.file_size

  Reads-offline_file :
      (v : OfflineFile)
      → OfflineFileInRange v
      → Reads B
          (object B parse_offline_file new_offline_file)
          (offline_file_items v)
          (parsed_offline_file v)
  unfolding parse_offline_file offline_file_items parsed_offline_file
  Reads-offline_file v h = record {
    at = λ rest. rw (
      reads_u32 _ _ _ h.from_id,
      reads_string _ _ _ h.task_id,
      reads_string _ _ _ h.file_name,
      reads_u32 _ _ _ h.file_size,
    );
  }

  Writes-offline_file :
      (v : OfflineFile)
      → OfflineFileInRange v
      → Writes B (put_object B serialize_offline_file v) (offline_file_items v)
  unfolding serialize_offline_file offline_file_items
  Writes-offline_file v h =
      Writes-u32 B h.from_id
      ⨾ Writes-string B h.task_id
      ⨾ Writes-string B h.file_name
      ⨾ Writes-u32 B h.file_size

  unfoldable pub parse_from_byte_stream : FileHasOfflineRes → In → Bool × FileHasOfflineRes × In
  parse_from_byte_stream m = checked B do
    req_user_id ← read_u32 m.req_user_id
    file_list ← parse_objectptr_array B parse_offline_file new_offline_file m.file_list
    pure (record m { req_user_id = req_user_id; file_list = file_list })

  unfoldable pub serialize_to_byte_stream : FileHasOfflineRes → Out → Bool × Out
  serialize_to_byte_stream m =
      os_checked B
        do write_u32 m.req_user_id; serialize_objectptr_array B serialize_offline_file m.file_list

  pub reads :
      (m0 m : FileHasOfflineRes)
      → InRange m
      → (rest : List Item)
      → parse_from_byte_stream m0 (reader (items m ++ rest)) ≡ (true, decode m0 m, reader rest)
  unfolding parse_from_byte_stream items decode
  reads m0 m h rest = rw (
    reads_u32 _ _ _ h.req_user_id,
    (Reads-objectptr_array B {P = OfflineFileInRange} offline_file_items parse_offline_file
          new_offline_file parsed_offline_file Reads-offline_file m0.file_list m.file_list
          h.file_list_size h.file_list).at
        rest,
    reader_good,
  )

  pub writes :
      (m : FileHasOfflineRes)
      → InRange m
      → Writes B (λ os. (serialize_to_byte_stream m os).1) (items m)
  unfolding serialize_to_byte_stream items
  writes m h =
      Writes-u32 B h.req_user_id
      ⨾ Writes-objectptr_array B {P = OfflineFileInRange} offline_file_items serialize_offline_file
          Writes-offline_file m.file_list h.file_list_size h.file_list

  unfoldable pub pdu_class : PduClass B FileHasOfflineRes
  unfolding byte_size parse_from_byte_stream serialize_to_byte_stream
  pdu_class = record {
    base = λ m. m.base;
    set_base = λ b m. record m { base = b };
    byte_size = byte_size;
    parse_from_byte_stream = parse_from_byte_stream;
    serialize_to_byte_stream = serialize_to_byte_stream;
  }

  unfoldable pub codec : Codec B pdu_class
  unfolding pdu_class decode
  codec = record {
    items = items;
    InRange = InRange;
    decode = decode;
    sizes = byte_size-items;
    reads = reads;
    writes = writes;
    result = λ m os. refl;
    base-decode = λ m0 m. refl;
  }

  -- A FileHasOfflineRes whose fields are in range, whose bytes are fewer than 2^32 and whose
  -- attached data are of the kind of the class is written by SerializeToArray into a buffer of its
  -- ByteSize(), and ParseFromArray of those bytes into a new object succeeds and leaves the fields
  -- that the class sends.
  pub file_has_offline_res_transfer :
      (garbage : ℕ) (m : FileHasOfflineRes)
      → Fitting B codec m
      → m.base.attach_data_type ≡ attach_db
      → Arrives B pdu_class m (create garbage) (delivered garbage m)
  unfolding codec delivered received has_attach_data
  file_has_offline_res_transfer garbage m f same = roundtrip B codec (create garbage) m f same
