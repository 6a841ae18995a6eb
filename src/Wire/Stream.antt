-- ===== src/Wire/Stream.antt =====
-- net::ByteStream, the parameter that every message is modelled over, and what is relied on.
use zattd.Base.{ℕ, ◌+◌, ◌<◌, ◌≡◌, Bool, true, false, List, [], ◌∷◌, ◌++◌, u32_mod, length}

-- One value on the wire.
pub data Item : Type 0 where
  u8 u16 u32 : ℕ → Item
  str : List ℕ → Item

-- The bytes that a value takes: a string is written behind its length, a uint32.
abbrev pub item_size : Item → ℕ
item_size (u8 n) = 1
item_size (u16 n) = 2
item_size (u32 n) = 4
item_size (str s) = 4 + length s

abbrev pub size : List Item → ℕ
size [] = 0
size (x ∷ xs) = item_size x + size xs

-- What a variable of the value's type holds.
abbrev pub Fits : Item → Type 0
Fits (u8 n) = n < 256
Fits (u16 n) = n < 65536
Fits (u32 n) = n < u32_mod
Fits (str s) = length s < u32_mod

-- `read_… old s` is `s >> x` for a variable `x` that holds `old`: its new value, and the stream.
-- `reader xs` stands for a good stream at the bytes of `xs`, and `writer xs k` for a good one that
-- has written `xs` and has room for `k` bytes more.
pub record ByteStream : Type 1 where
  pub In : Type 0
  pub Out : Type 0
  -- What an uninitialised uint32 variable holds.
  pub garbage : ℕ
  pub open_in : List ℕ → In
  pub fail : In → Bool
  pub read_u8 : ℕ → In → ℕ × In
  pub read_u16 : ℕ → In → ℕ × In
  pub read_u32 : ℕ → In → ℕ × In
  pub read_string : List ℕ → In → List ℕ × In
  pub open_out : ℕ → Out
  pub os_fail : Out → Bool
  pub write_u8 : ℕ → Out → Out
  pub write_u16 : ℕ → Out → Out
  pub write_u32 : ℕ → Out → Out
  pub write_string : List ℕ → Out → Out
  -- The bytes that the buffer holds.
  pub contents : Out → List ℕ
  pub reader : List Item → In
  pub writer : List Item → ℕ → Out
  -- A stream over a fresh buffer, and one over what another has written.
  pub opened_out : (k : ℕ) → open_out k ≡ writer [] k
  pub opened_in : (xs : List Item) (k : ℕ) → open_in (contents (writer xs k)) ≡ reader xs
  -- A good stream reads what was written.
  pub reader_good : (xs : List Item) → fail (reader xs) ≡ false
  pub reads_u8 :
      (n old : ℕ) (xs : List Item) → Fits (u8 n) → read_u8 old (reader (u8 n ∷ xs)) ≡ (n, reader xs)
  pub reads_u16 :
      (n old : ℕ) (xs : List Item)
      → Fits (u16 n)
      → read_u16 old (reader (u16 n ∷ xs)) ≡ (n, reader xs)
  pub reads_u32 :
      (n old : ℕ) (xs : List Item)
      → Fits (u32 n)
      → read_u32 old (reader (u32 n ∷ xs)) ≡ (n, reader xs)
  pub reads_string :
      (s old : List ℕ) (xs : List Item)
      → Fits (str s)
      → read_string old (reader (str s ∷ xs)) ≡ (s, reader xs)
  -- A write advances a good stream that has the room, and fails without it; a failure stays.
  pub writer_good : (xs : List Item) (k : ℕ) → os_fail (writer xs k) ≡ false
  pub writes_u8 :
      (n : ℕ) (xs : List Item) (k : ℕ)
      → Fits (u8 n)
      → write_u8 n (writer xs (1 + k)) ≡ writer (xs ++ u8 n ∷ []) k
  pub writes_u16 :
      (n : ℕ) (xs : List Item) (k : ℕ)
      → Fits (u16 n)
      → write_u16 n (writer xs (2 + k)) ≡ writer (xs ++ u16 n ∷ []) k
  pub writes_u32 :
      (n : ℕ) (xs : List Item) (k : ℕ)
      → Fits (u32 n)
      → write_u32 n (writer xs (4 + k)) ≡ writer (xs ++ u32 n ∷ []) k
  pub writes_string :
      (s : List ℕ) (xs : List Item) (k : ℕ)
      → Fits (str s)
      → write_string s (writer xs (4 + length s + k)) ≡ writer (xs ++ str s ∷ []) k
  pub no_room_u8 :
      (n : ℕ) (xs : List Item) (k : ℕ) → k < 1 → os_fail (write_u8 n (writer xs k)) ≡ true
  pub no_room_u16 :
      (n : ℕ) (xs : List Item) (k : ℕ) → k < 2 → os_fail (write_u16 n (writer xs k)) ≡ true
  pub no_room_u32 :
      (n : ℕ) (xs : List Item) (k : ℕ) → k < 4 → os_fail (write_u32 n (writer xs k)) ≡ true
  pub no_room_string :
      (s : List ℕ) (xs : List Item) (k : ℕ)
      → k < 4 + length s
      → os_fail (write_string s (writer xs k)) ≡ true
  pub stays_u8 : (n : ℕ) (os : Out) → os_fail os ≡ true → os_fail (write_u8 n os) ≡ true
  pub stays_u16 : (n : ℕ) (os : Out) → os_fail os ≡ true → os_fail (write_u16 n os) ≡ true
  pub stays_u32 : (n : ℕ) (os : Out) → os_fail os ≡ true → os_fail (write_u32 n os) ≡ true
  pub stays_string :
      (s : List ℕ) (os : Out) → os_fail os ≡ true → os_fail (write_string s os) ≡ true
