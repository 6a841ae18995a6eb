-- ===== src/Proto/Codec.antt =====
-- What a message class promises of its methods, and what follows for ParseFromArray and
-- SerializeToArray of proto/base_teamtalk_pdu.cc.
use zattd.Base.{
  ℕ, ◌+◌, ◌-◌, ◌<◌, ◌≡◌, inl, inr, Bool, true, false, not, List, [], ◌∷◌, ◌++◌, if◌then◌else◌,
  length, to_u32, u32_mod, arith, Bool-cases, append-nil, dec_lt, refl,
}
use zattd.Wire.Stream.{Item, str, size, ByteStream}
use zattd.Wire.Rules.{Writes, size-append}
use zattd.Proto.BasePdu.{
  BaseTeamTalkPdu, PduClass, base_byte_size, has_attach_data, parse_from_array, serialize_to_array,
}

-- `items m` is what the fields of `m` put on the wire, and `decode m0 m` what parsing them into
-- `m0` leaves.
pub record Codec (B : ByteStream) {M : Type 0} (C : PduClass B M) : Type 1 where
  pub items : M → List Item
  pub InRange : M → Type 0
  pub decode : M → M → M
  pub sizes : (m : M) → C.byte_size m ≡ to_u32 (base_byte_size (C.base m) + size (items m))
  pub reads :
      (m0 m : M)
      → InRange m
      → (rest : List Item)
      → C.parse_from_byte_stream m0 (B.reader (items m ++ rest))
        ≡ (true, decode m0 m, B.reader rest)
  pub writes : (m : M) → InRange m → Writes B (λ os. (C.serialize_to_byte_stream m os).1) (items m)
  pub result :
      (m : M) (os : B.Out)
      → (C.serialize_to_byte_stream m os).0 ≡ not (B.os_fail (C.serialize_to_byte_stream m os).1)
  pub base-decode : (m0 m : M) → C.base (decode m0 m) ≡ C.base m0

-- A buffer of ByteSize() bytes takes `m`, and parsing its bytes into `fresh` succeeds and leaves
-- `got`.
abbrev pub Arrives : (B : ByteStream) {M : Type 0} → PduClass B M → M → M → M → Type 0
Arrives B C m fresh got =
    let (ok, os) = serialize_to_array B C m (PduClass.byte_size C m) in
    (ok ≡ true) × (parse_from_array B C fresh (ByteStream.contents B os) ≡ (true, got))

attach_items : Bool → List ℕ → List Item
attach_items false s = []
attach_items true s = str s ∷ []

base_byte_size-attach_items :
    (b : BaseTeamTalkPdu)
    → 4 + length b.attach_data < u32_mod
    → base_byte_size b ≡ size (attach_items (has_attach_data b) b.attach_data)
unfolding base_byte_size has_attach_data attach_items
base_byte_size-attach_items b h = ground arith

same_has_attach_data :
    (a b : BaseTeamTalkPdu)
    → a.attach_data_type ≡ b.attach_data_type
    → has_attach_data a ≡ has_attach_data b
unfolding has_attach_data
same_has_attach_data a b e = cc

module _ (B : ByteStream) {M : Type 0} {C : PduClass B M} (D : Codec B C) where
  open B use {
    Out, open_in, contents, reader, writer, opened_out, opened_in, writer_good, reader_good,
    reads_string, writes_string, no_room_string,
  }
  open C use {base, set_base, byte_size}
  open D use {items, InRange, decode}

  -- What ParseFromArray leaves in `m0` when it is given the bytes of `m`.
  unfoldable pub received : M → M → M
  received m0 m =
      if has_attach_data (base m0)
      then set_base (record (base m0) { attach_data = (base m).attach_data }) (decode m0 m)
      else decode m0 m

  -- The fields are in their ranges, and the message has less than 2^32 bytes.
  pub record Fitting (m : M) : Type 0 where
    pub fields : InRange m
    pub attached : 4 + length (base m).attach_data < u32_mod
    pub total : base_byte_size (base m) + size (items m) < u32_mod

  whole : M → List Item
  whole m = items m ++ attach_items (has_attach_data (base m)) (base m).attach_data

  size-whole : (m : M) → Fitting m → byte_size m ≡ size (whole m)
  unfolding whole
  size-whole m f = omega (
    arith,
    D.sizes m,
    f.total,
    base_byte_size-attach_items (base m) f.attached,
    size-append (items m) (attach_items (has_attach_data (base m)) (base m).attach_data),
  )

  body_good :
      (m : M) (k : ℕ)
      → InRange m
      → C.serialize_to_byte_stream m (writer [] (size (items m) + k)) ≡ (true, writer (items m) k)
  body_good m k h =
      let w = (D.writes m h).written [] k in
      let ok : (C.serialize_to_byte_stream m (writer [] (size (items m) + k))).0 ≡ true =
        rw (D.result m (writer [] (size (items m) + k)), w, writer_good) in
      λ i. (ok i, w i)

  serialize_good :
      (m : M) (k : ℕ)
      → Fitting m
      → serialize_to_array B C m (size (whole m) + k) ≡ (true, writer (whole m) k)
  unfolding serialize_to_array whole attach_items
  serialize_good m k f = elim (Bool-cases (has_attach_data (base m))) [
    | inl has ↦
        let s = (base m).attach_data in
        let room : size (items m ++ str s ∷ []) + k ≡ size (items m) + (4 + length s + k) =
          omega (arith, size-append (items m) (str s ∷ [])) in
        rw (
          has,
          opened_out,
          room,
          body_good m (4 + length s + k) f.fields,
          writes_string s (items m) k (omega arith),
          writer_good,
        )
    | inr none ↦ rw (none, append-nil, opened_out, body_good m k f.fields)
  ]

  serialize_short :
      (m : M) (k : ℕ) → Fitting m → k < size (whole m) → (serialize_to_array B C m k).0 ≡ false
  unfolding serialize_to_array whole attach_items
  serialize_short m k f h = elim (dec_lt k (size (items m))) [
    | yes l ↦ rw (opened_out, D.result m (writer [] k), (D.writes m f.fields).short [] k l)
    | no g ↦ elim (Bool-cases (has_attach_data (base m))) [
      | inl has ↦
          let s = (base m).attach_data in
          let rest : k ≡ size (items m) + (k - size (items m)) = omega arith in
          let less : k - size (items m) < 4 + length s =
            omega (arith, rw has at h, size-append (items m) (str s ∷ [])) in
          rw (has, opened_out, rest, body_good m (k - size (items m)) f.fields)
            (rw (no_room_string s (items m) (k - size (items m)) less))
      | inr none ↦ absurd (g (rw (none, append-nil) at h))
    ]
  ]

  parse_good :
      (m0 m : M)
      → Fitting m
      → (base m).attach_data_type ≡ (base m0).attach_data_type
      → parse_from_array B C m0 (contents (writer (whole m) 0)) ≡ (true, received m0 m)
  unfolding parse_from_array whole received attach_items
  parse_good m0 m f same = elim (Bool-cases (has_attach_data (base m0))) [
    | inl has ↦
        let s = (base m).attach_data in
        rw (
          opened_in,
          same_has_attach_data (base m) (base m0) same,
          has,
          D.reads m0 m f.fields (str s ∷ []),
          D.base-decode m0 m,
          has,
          reads_string s (base m0).attach_data [] (omega arith),
          reader_good,
        )
    | inr none ↦ rw (
      opened_in,
      same_has_attach_data (base m) (base m0) same,
      none,
      D.reads m0 m f.fields [],
      D.base-decode m0 m,
      none,
    )
  ]

  -- For a class with a codec: a fitting message is written by SerializeToArray into a buffer of
  -- ByteSize() bytes, and ParseFromArray of those bytes, into an object with attached data of the
  -- same kind, succeeds and leaves what the codec decodes, with the attached data if the class has
  -- them.
  pub roundtrip :
      (m0 m : M)
      → Fitting m
      → (base m).attach_data_type ≡ (base m0).attach_data_type
      → Arrives B C m m0 (received m0 m)
  roundtrip m0 m f same =
      let e : byte_size m ≡ size (whole m) + 0 = omega (arith, size-whole m f) in
      rw (e, serialize_good m 0 f) (refl, parse_good m0 m f same)

  -- For a class with a codec: SerializeToArray of a fitting message into a buffer of fewer than
  -- ByteSize() bytes returns false.
  pub refuses_short :
      (m : M) (data_len : ℕ)
      → Fitting m
      → data_len < byte_size m
      → (serialize_to_array B C m data_len).0 ≡ false
  refuses_short m data_len f h = serialize_short m data_len f (rw (← size-whole m f) h)
