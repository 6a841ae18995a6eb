-- ===== src/Proto/FileDelOfflineReq.antt =====
-- proto/file_del_offline_req.{h,cc}
use zattd.Base.{
  ℕ, ◌+◌, ◌<◌, ◌≡◌, refl, Bool, true, List, [], ◌∷◌, ◌++◌, arith, length, u32_mod, to_u32,
}
use zattd.Wire.Stream.{Item, u32, str, size, ByteStream}
use zattd.Wire.Rules.{
  ◌>>=◌, ◌>>◌, pure, checked, os_checked, Writes, Writes-u32, Writes-string, ◌⨾◌,
}
use zattd.Proto.MessageTypes.{message_file_del_offline_req}
use zattd.Proto.BasePdu.{
  BaseTeamTalkPdu, attach_db, new_base, base_byte_size, sizeof_string, has_attach_data, PduClass,
}
use zattd.Proto.Codec.{Arrives, Codec, received, Fitting, roundtrip}

pub record FileDelOfflineReq : Type 0 where
  pub base : BaseTeamTalkPdu
  pub req_user_id : ℕ
  pub from_id : ℕ
  pub to_id : ℕ
  pub task_id : List ℕ

-- What the constructor passes to the base class.
abbrev pub message_type : ℕ
message_type = message_file_del_offline_req

-- The constructor; what it leaves uninitialised holds `garbage`.
unfoldable pub create : ℕ → FileDelOfflineReq
unfolding new_base
create garbage = record {
  base = new_base attach_db garbage;
  req_user_id = garbage;
  from_id = garbage;
  to_id = garbage;
  task_id = [];
}

unfoldable pub byte_size : FileDelOfflineReq → ℕ
byte_size m = to_u32 (base_byte_size m.base + 4 + 4 + 4 + sizeof_string m.task_id)

unfoldable pub items : FileDelOfflineReq → List Item
items m = u32 m.req_user_id ∷ u32 m.from_id ∷ u32 m.to_id ∷ str m.task_id ∷ []

pub record InRange (m : FileDelOfflineReq) : Type 0 where
  pub req_user_id : m.req_user_id < u32_mod
  pub from_id : m.from_id < u32_mod
  pub to_id : m.to_id < u32_mod
  pub task_id : length m.task_id < u32_mod

unfoldable pub decode : FileDelOfflineReq → FileDelOfflineReq → FileDelOfflineReq
decode m0 m = record m { base = m0.base }

pub byte_size-items :
    (m : FileDelOfflineReq) → byte_size m ≡ to_u32 (base_byte_size m.base + size (items m))
unfolding byte_size items
byte_size-items m = omega arith

-- What the receiver of `m` holds.
unfoldable pub delivered : ℕ → FileDelOfflineReq → FileDelOfflineReq
unfolding new_base create
delivered garbage m = record m {
  base = record (new_base attach_db garbage) { attach_data = m.base.attach_data };
}

module _ (B : ByteStream) where
  open B use {
    Out, In, contents, read_u32, read_string, write_u32, write_string, reader, reads_u32,
    reads_string, reader_good,
  }

  unfoldable pub parse_from_byte_stream : FileDelOfflineReq → In → Bool × FileDelOfflineReq × In
  parse_from_byte_stream m = checked B do
    req_user_id ← read_u32 m.req_user_id
    from_id ← read_u32 m.from_id
    to_id ← read_u32 m.to_id
    task_id ← read_string m.task_id
    pure (record m {
      req_user_id = req_user_id;
      from_id = from_id;
      to_id = to_id;
      task_id = task_id;
    })

  unfoldable pub serialize_to_byte_stream : FileDelOfflineReq → Out → Bool × Out
  serialize_to_byte_stream m =
      os_checked B
        do write_u32 m.req_user_id; write_u32 m.from_id; write_u32 m.to_id; write_string m.task_id

  pub reads :
      (m0 m : FileDelOfflineReq)
      → InRange m
      → (rest : List Item)
      → parse_from_byte_stream m0 (reader (items m ++ rest)) ≡ (true, decode m0 m, reader rest)
  unfolding parse_from_byte_stream items decode
  reads m0 m h rest = rw (
    reads_u32 _ _ _ h.req_user_id,
    reads_u32 _ _ _ h.from_id,
    reads_u32 _ _ _ h.to_id,
    reads_string _ _ _ h.task_id,
    reader_good,
  )

  pub writes :
      (m : FileDelOfflineReq)
      → InRange m
      → Writes B (λ os. (serialize_to_byte_stream m os).1) (items m)
  unfolding serialize_to_byte_stream items
  writes m h =
      Writes-u32 B h.req_user_id
      ⨾ Writes-u32 B h.from_id
      ⨾ Writes-u32 B h.to_id
      ⨾ Writes-string B h.task_id

  unfoldable pub pdu_class : PduClass B FileDelOfflineReq
  unfolding byte_size parse_from_byte_stream serialize_to_byte_stream
  pdu_class = record {
    base = λ m. m.base;
    set_base = λ b m. record m { base = b };
    byte_size = byte_size;
    parse_from_byte_stream = parse_from_byte_stream;
    serialize_to_byte_stream = serialize_to_byte_stream;
  }

  unfoldable pub codec : Codec B pdu_class
  unfolding pdu_class decode
  codec = record {
    items = items;
    InRange = InRange;
    decode = decode;
    sizes = byte_size-items;
    reads = reads;
    writes = writes;
    result = λ m os. refl;
    base-decode = λ m0 m. refl;
  }

  -- A fitting message with attached data of the kind of the class arrives in a new object.
  pub file_del_offline_req_transfer :
      (garbage : ℕ) (m : FileDelOfflineReq)
      → Fitting B codec m
      → m.base.attach_data_type ≡ attach_db
      → Arrives B pdu_class m (create garbage) (delivered garbage m)
  unfolding codec delivered received has_attach_data
  file_del_offline_req_transfer garbage m f same = roundtrip B codec (create garbage) m f same
