-- ===== src/Wire/Arrays.antt =====
-- The array macros of proto/base_teamtalk_pdu.h: PARSE_OBJECTPTR_ARRAY_IMPLICIT,
-- PARSE_BASICTYPE_ARRAY_IMPLICIT and their SERIALIZE_ counterparts, and the sizes of arrays.
use zattd.Base.{
  ℕ, zero, suc, ◌+◌, ◌*◌, ◌<◌, ◌≡◌, refl, sym, ap, subst, Bool, List, [], ◌∷◌, ◌++◌, map,
  append-nil, append_assoc, arith, length, length-append, All, to_u32, u32_mod, zero-add,
}
use zattd.Wire.Stream.{Item, u32, size, ByteStream}
use zattd.Wire.Rules.{
  ◌>>=◌, ◌>>◌, Reads, Writes, size-append, Reads-bind, Reads-u32, Writes-u32, ◌⨾◌,
}

-- What an array puts on the wire: its size, and its members in order.
abbrev pub items_of {ℓ} : {A : Type ℓ} → (A → List Item) → List A → List Item
items_of f [] = []
items_of f (a ∷ l) = f a ++ items_of f l

abbrev pub array_items {ℓ} : {A : Type ℓ} → (A → List Item) → List A → List Item
array_items f l = u32 (length l) ∷ items_of f l

abbrev pub uint32_items : ℕ → List Item
uint32_items n = u32 n ∷ []

abbrev pub IsUint32 : ℕ → Type 0
IsUint32 n = n < u32_mod

-- CalculateContainerByteSize2(size, arr), with `size` a uint32.
unfoldable pub add_sizes {ℓ} : {A : Type ℓ} → (A → ℕ) → ℕ → List A → ℕ
add_sizes byte_size total [] = total
add_sizes byte_size total (a ∷ l) = add_sizes byte_size (to_u32 (total + byte_size a)) l

unfoldable pub calculate_container_byte_size2 {ℓ} : {A : Type ℓ} → (A → ℕ) → ℕ → List A → ℕ
calculate_container_byte_size2 byte_size total arr = add_sizes byte_size (to_u32 (total + 4)) arr

-- CalculateContainerByteSize(container)
unfoldable pub calculate_container_byte_size : List ℕ → ℕ
calculate_container_byte_size [] = 4 + 0 * 4
calculate_container_byte_size (x ∷ l) = to_u32 (4 + length (x ∷ l) * 4)

module _ (B : ByteStream) where
  open B use {In, Out, garbage, read_u32, write_u32}

  -- The object that a parse leaves; what it returns is not looked at.
  abbrev pub object : {A : Type 0} → (A → In → Bool × A × In) → A → In → A × In
  object parse obj is = let (ok, obj', is') = parse obj is in (obj', is')

  abbrev pub put_object : {A : Type 0} → (A → Out → Bool × Out) → A → Out → Out
  put_object serialize obj os = (serialize obj os).1

  -- for (uint32 i=0; i<array_size; ++i) { …; arr.push_back(obj); }
  unfoldable pub push_loop : {A : Type 0} → (In → A × In) → ℕ → List A → In → List A × In
  push_loop next zero arr is = (arr, is)
  push_loop next (suc i) arr is = let (obj, is') = next is in push_loop next i (arr ++ obj ∷ []) is'

  unfoldable pub parse_objectptr_array :
      {A : Type 0} → (A → In → Bool × A × In) → A → List A → In → List A × In
  parse_objectptr_array parse fresh arr = do
    array_size ← read_u32 0
    push_loop (object parse fresh) array_size arr

  unfoldable pub parse_basictype_array : List ℕ → In → List ℕ × In
  parse_basictype_array arr = do
    array_size ← read_u32 0
    push_loop (read_u32 garbage) array_size arr

  unfoldable pub put_loop : {A : Type 0} → (A → Out → Out) → List A → Out → Out
  put_loop put [] os = os
  put_loop put (obj ∷ arr) os = put_loop put arr (put obj os)

  unfoldable pub serialize_objectptr_array :
      {A : Type 0} → (A → Out → Bool × Out) → List A → Out → Out
  serialize_objectptr_array serialize arr = do
    write_u32 (to_u32 (length arr))
    put_loop (put_object serialize) arr

  unfoldable pub serialize_basictype_array : List ℕ → Out → Out
  serialize_basictype_array arr = do write_u32 (to_u32 (length arr)); put_loop write_u32 arr

  -- The loop pushes as many objects as it is told to, whatever the stream.
  length-push_loop :
      {A : Type 0} (next : In → A × In) (n : ℕ) (arr : List A) (is : In)
      → length (push_loop next n arr is).0 ≡ length arr + n
  unfolding push_loop
  length-push_loop next zero arr is = omega arith
  length-push_loop next (suc n) arr is = omega (
    arith,
    length-push_loop next n (arr ++ (next is).0 ∷ []) (next is).1,
    length-append arr ((next is).0 ∷ []),
  )

  -- Parsing an array of objects, and one of numbers, into a vector appends as many members as the
  -- size that was read says, or none if the variable for the size keeps its 0, whatever the stream
  -- holds behind it and also when it fails.
  pub length-parse_arrays :
      {A : Type 0} (parse : A → In → Bool × A × In) (fresh : A) (objects : List A)
      (numbers : List ℕ) (is : In)
      → (length (parse_objectptr_array parse fresh objects is).0
          ≡ length objects + (read_u32 0 is).0)
        × (length (parse_basictype_array numbers is).0 ≡ length numbers + (read_u32 0 is).0)
  unfolding parse_objectptr_array parse_basictype_array
  length-parse_arrays parse fresh objects numbers is = (
    length-push_loop (object parse fresh) (read_u32 0 is).0 objects (read_u32 0 is).1,
    length-push_loop (read_u32 garbage) (read_u32 0 is).0 numbers (read_u32 0 is).1,
  )

  module _ {A : Type 0} {P : A → Type 0} (f : A → List Item) where
    -- An array is read back behind what the vector holds.
    Reads-push_loop :
        {next : In → A × In} (g : A → A)
        → ((a : A) → P a → Reads B next (f a) (g a))
        → (arr l : List A) → All P l
        → Reads B (push_loop next (length l) arr) (items_of f l) (arr ++ map g l)
    unfolding push_loop
    Reads-push_loop g reads arr [] h = record { at = λ rest. rw append-nil }
    Reads-push_loop {next} g reads arr (a ∷ l) h =
        rw (sym (append_assoc arr (g a ∷ []) (map g l))) (
          Reads-bind B (λ obj. push_loop next (length l) (arr ++ obj ∷ [])) (reads a h.0)
            (Reads-push_loop g reads (arr ++ g a ∷ []) l h.1))

    Writes-put_loop :
        {put : A → Out → Out}
        → ((a : A) → P a → Writes B (put a) (f a))
        → (l : List A) → All P l
        → Writes B (put_loop put l) (items_of f l)
    unfolding put_loop
    Writes-put_loop writes [] h = record {
      written = λ ys k. rw (append-nil, zero-add k);
      short = λ ys k lt. elim lt [ ];
      stays = λ os e. e;
    }
    Writes-put_loop writes (a ∷ l) h = writes a h.0 ⨾ Writes-put_loop writes l h.1

    pub Reads-objectptr_array :
        (parse : A → In → Bool × A × In) (fresh : A) (g : A → A)
        → ((a : A) → P a → Reads B (object parse fresh) (f a) (g a))
        → (arr l : List A) → length l < u32_mod
        → All P l
        → Reads B (parse_objectptr_array parse fresh arr) (array_items f l) (arr ++ map g l)
    unfolding parse_objectptr_array
    Reads-objectptr_array parse fresh g reads arr l n h =
        Reads-bind B (λ size. push_loop (object parse fresh) size arr) (Reads-u32 B n)
          (Reads-push_loop g reads arr l h)

    pub Writes-objectptr_array :
        (serialize : A → Out → Bool × Out)
        → ((a : A) → P a → Writes B (put_object serialize a) (f a))
        → (l : List A) → length l < u32_mod
        → All P l
        → Writes B (serialize_objectptr_array serialize l) (array_items f l)
    unfolding serialize_objectptr_array
    Writes-objectptr_array serialize writes l n h =
        let e : to_u32 (length l) ≡ length l = omega arith in
        rw e (Writes-u32 B n ⨾ Writes-put_loop writes l h)

  map_same : (l : List ℕ) → map (λ (n : ℕ). n) l ≡ l
  map_same [] = refl
  map_same (x ∷ l) = ap (λ t. x ∷ t) (map_same l)

  pub Reads-basictype_array :
      (arr l : List ℕ)
      → length l < u32_mod
      → All IsUint32 l
      → Reads B (parse_basictype_array arr) (array_items uint32_items l) (arr ++ l)
  unfolding parse_basictype_array
  Reads-basictype_array arr l n h =
      subst (λ t. Reads B (parse_basictype_array arr) (array_items uint32_items l) (arr ++ t))
        (map_same l)
        (Reads-bind B (λ size. push_loop (read_u32 garbage) size arr) (Reads-u32 B n)
          (Reads-push_loop uint32_items (λ (k : ℕ). k) (λ a p. Reads-u32 B p) arr l h))

  pub Writes-basictype_array :
      (l : List ℕ)
      → length l < u32_mod
      → All IsUint32 l
      → Writes B (serialize_basictype_array l) (array_items uint32_items l)
  unfolding serialize_basictype_array
  Writes-basictype_array l n h =
      let e : to_u32 (length l) ≡ length l = omega arith in
      rw e (Writes-u32 B n ⨾ Writes-put_loop uint32_items (λ a p. Writes-u32 B p) l h)

module _ {A : Type 0} (f : A → List Item) {byte_size : A → ℕ}
    (sizes : (a : A) → byte_size a ≡ to_u32 (size (f a))) where
  add_sizes-size :
      (total : ℕ) (l : List A)
      → total < u32_mod
      → add_sizes byte_size total l ≡ to_u32 (total + size (items_of f l))
  unfolding add_sizes
  add_sizes-size total [] h = omega arith
  add_sizes-size total (a ∷ l) h = omega (
    arith,
    add_sizes-size (to_u32 (total + byte_size a)) l (omega arith),
    sizes a,
    size-append (f a) (items_of f l),
  )

  -- The macro adds the bytes of the whole array to `size`, modulo 2^32.
  pub container_size2 :
      (total : ℕ) (l : List A)
      → calculate_container_byte_size2 byte_size total l ≡ to_u32 (total + size (array_items f l))
  unfolding calculate_container_byte_size2
  container_size2 total l = omega (arith, add_sizes-size (to_u32 (total + 4)) l (omega arith))

size-uint32s : (l : List ℕ) → size (items_of uint32_items l) ≡ length l * 4
size-uint32s [] = omega arith
size-uint32s (x ∷ l) = omega (arith, size-uint32s l)

pub container_size :
    (l : List ℕ) → calculate_container_byte_size l ≡ to_u32 (size (array_items uint32_items l))
unfolding calculate_container_byte_size
container_size [] = refl
container_size (x ∷ l) = omega (arith, size-uint32s l)
