-- ===== src/Wire/Rules.antt =====
-- Reading and writing in sequence: the chains of `>>` and `<<` in the messages' methods, and what
-- they do to a stream.
use zattd.Base.{
  ℕ, ◌+◌, ◌-◌, ◌<◌, ◌≡◌, ap, ◌∙◌, Bool, true, not, List, [], ◌∷◌, ◌++◌, append_assoc, arith, length,
  dec_lt,
}
use zattd.Wire.Stream.{Item, u8, u16, u32, str, size, Fits, ByteStream}

-- An action on a stream in state `S`.
infixl 5 ◌>>=◌ ◌>>◌
abbrev pub ◌>>=◌ : {S A C : Type 0} → (S → A × S) → (A → S → C × S) → S → C × S
◌>>=◌ p f s = let (a, s') = p s in f a s'

abbrev pub pure : {S A : Type 0} → A → S → A × S
pure a s = (a, s)

abbrev pub ◌>>◌ : {S : Type 0} → (S → S) → (S → S) → S → S
◌>>◌ v w s = w (v s)

pub size-append : (xs ys : List Item) → size (xs ++ ys) ≡ size xs + size ys
size-append [] ys = omega arith
size-append (x ∷ xs) ys = omega (arith, size-append xs ys)

module _ (B : ByteStream) where
  open B use {
    In, Out, fail, read_u32, os_fail, write_u8, write_u16, write_u32, write_string, reader, writer,
    reader_good, writer_good, reads_u32, writes_u8, writes_u16, writes_u32, writes_string,
    no_room_u8, no_room_u16, no_room_u32, no_room_string, stays_u8, stays_u16, stays_u32,
    stays_string,
  }

  -- `return !is.Fail();` behind the reads of a method, and `return !os->Fail();`.
  abbrev pub checked : {A : Type 0} → (In → A × In) → In → Bool × A × In
  checked p is = let (a, is') = p is in (not (fail is'), a, is')

  abbrev pub os_checked : (Out → Out) → Out → Bool × Out
  os_checked w os = let os' = w os in (not (os_fail os'), os')

  -- `Reads p xs a`: at the bytes of `xs` the action takes just those, and returns `a`.
  pub record Reads {A : Type 0} (p : In → A × In) (xs : List Item) (a : A) : Type 0 where
    pub at : (rest : List Item) → p (reader (xs ++ rest)) ≡ (a, reader rest)

  -- `Writes w xs`: with room for it the action appends `xs`; without, it leaves a failed stream.
  pub record Writes (w : Out → Out) (xs : List Item) : Type 0 where
    pub written : (ys : List Item) (k : ℕ) → w (writer ys (size xs + k)) ≡ writer (ys ++ xs) k
    pub short : (ys : List Item) (k : ℕ) → k < size xs → os_fail (w (writer ys k)) ≡ true
    pub stays : (os : Out) → os_fail os ≡ true → os_fail (w os) ≡ true

  pub Reads-bind :
      {A C : Type 0} {p : In → A × In} (f : A → In → C × In) {xs ys : List Item} {a : A} {c : C}
      → Reads p xs a
      → Reads (f a) ys c
      → Reads (p >>= f) (xs ++ ys) c
  Reads-bind f {xs = xs} {ys = ys} r s = record {
    at = λ rest. rw append_assoc (ap (λ t. f t.0 t.1) (r.at (ys ++ rest)) ∙ s.at rest);
  }

  pub Reads-u32 : {n old : ℕ} → Fits (u32 n) → Reads (read_u32 old) (u32 n ∷ []) n
  Reads-u32 {n} {old} h = record { at = λ rest. reads_u32 n old rest h }

  Writes-seq :
      {v w : Out → Out} {xs ys : List Item} → Writes v xs → Writes w ys → Writes (v >> w) (xs ++ ys)
  Writes-seq {v} {w} {xs} {ys} a b = record {
    written = λ zs k.
        let e : size (xs ++ ys) + k ≡ size xs + (size ys + k) = omega (arith, size-append xs ys) in
        rw e (
          ap w (a.written zs (size ys + k))
          ∙ b.written (zs ++ xs) k
          ∙ ap (λ t. writer t k) (append_assoc zs xs ys));
    short = λ zs k h. elim (dec_lt k (size xs)) [
      | yes l ↦ b.stays (v (writer zs k)) (a.short zs k l)
      | no g ↦
          let e : k ≡ size xs + (k - size xs) = omega arith in
          rw e (
            rw (a.written zs (k - size xs))
              (b.short (zs ++ xs) (k - size xs) (omega (arith, size-append xs ys))))
    ];
    stays = λ os h. b.stays (v os) (a.stays os h);
  }

  pub Writes-u8 : {n : ℕ} → Fits (u8 n) → Writes (write_u8 n) (u8 n ∷ [])
  Writes-u8 {n} h = record {
    written = λ ys k. writes_u8 n ys k h;
    short = λ ys k l. no_room_u8 n ys k l;
    stays = stays_u8 n;
  }

  pub Writes-u16 : {n : ℕ} → Fits (u16 n) → Writes (write_u16 n) (u16 n ∷ [])
  Writes-u16 {n} h = record {
    written = λ ys k. writes_u16 n ys k h;
    short = λ ys k l. no_room_u16 n ys k l;
    stays = stays_u16 n;
  }

  pub Writes-u32 : {n : ℕ} → Fits (u32 n) → Writes (write_u32 n) (u32 n ∷ [])
  Writes-u32 {n} h = record {
    written = λ ys k. writes_u32 n ys k h;
    short = λ ys k l. no_room_u32 n ys k l;
    stays = stays_u32 n;
  }

  pub Writes-string : {s : List ℕ} → Fits (str s) → Writes (write_string s) (str s ∷ [])
  Writes-string {s} h = record {
    written = λ ys k.
        let e : 4 + length s + 0 + k ≡ 4 + length s + k = omega arith in
        rw e (writes_string s ys k h);
    short = λ ys k l. no_room_string s ys k (omega arith);
    stays = stays_string s;
  }

-- The rule for a chain of writes.
infixr 6 ◌⨾◌
pub ◌⨾◌ :
    {B : ByteStream} {v w : B.Out → B.Out} {xs ys : List Item}
    → Writes B v xs
    → Writes B w ys
    → Writes B (v >> w) (xs ++ ys)
◌⨾◌ {B} a b = Writes-seq B a b
