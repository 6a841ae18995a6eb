-- ===== src/Wire/Bytes.antt =====
-- A stream of bytes with fixed-width numbers, lowest byte first, that has what is relied on of
-- net::ByteStream.
use zattd.Base.{
  ℕ, zero, suc, ◌+◌, ◌-◌, ◌*◌, ◌/◌, ◌%◌, ◌<◌, ◌≡◌, refl, sym, ap, ◌∙◌, Bool, true, false, Option,
  none, some, List, [], ◌∷◌, ◌++◌, append_assoc, append-nil, if◌then◌else◌, ltb, length, u32_mod,
  arith,
}
use zattd.Wire.Stream.{Item, u8, u16, u32, str, item_size, ByteStream}

abbrev bytes16 : ℕ → List ℕ
bytes16 n = n % 256 ∷ n / 256 ∷ []

abbrev bytes32 : ℕ → List ℕ
bytes32 n = n % 256 ∷ n / 256 % 256 ∷ n / 65536 % 256 ∷ n / 16777216 ∷ []

abbrev encode_item : Item → List ℕ
encode_item (u8 n) = n ∷ []
encode_item (u16 n) = bytes16 n
encode_item (u32 n) = bytes32 n
encode_item (str s) = bytes32 (length s) ++ s

abbrev encode : List Item → List ℕ
encode [] = []
encode (x ∷ xs) = encode_item x ++ encode xs

abbrev get_u8 : ℕ → Option (List ℕ) → ℕ × Option (List ℕ)
get_u8 old (some (a ∷ bs)) = (a, some bs)
get_u8 old (some []) = (old, none)
get_u8 old none = (old, none)

abbrev get_u16 : ℕ → Option (List ℕ) → ℕ × Option (List ℕ)
get_u16 old (some (a ∷ b ∷ bs)) = (a + 256 * b, some bs)
get_u16 old (some (a ∷ [])) = (old, none)
get_u16 old (some []) = (old, none)
get_u16 old none = (old, none)

abbrev get_u32 : ℕ → Option (List ℕ) → ℕ × Option (List ℕ)
get_u32 old (some (a ∷ b ∷ c ∷ d ∷ bs)) = (a + 256 * b + 65536 * c + 16777216 * d, some bs)
get_u32 old (some (a ∷ b ∷ c ∷ [])) = (old, none)
get_u32 old (some (a ∷ b ∷ [])) = (old, none)
get_u32 old (some (a ∷ [])) = (old, none)
get_u32 old (some []) = (old, none)
get_u32 old none = (old, none)

-- The first `n` of the bytes and the rest, if there are as many.
split_at : ℕ → List ℕ → Option (List ℕ × List ℕ)
split_at zero bs = some ([], bs)
split_at (suc n) [] = none
split_at (suc n) (b ∷ bs) = elim (split_at n bs) [
  | none ↦ none
  | some (s, rest) ↦ some (b ∷ s, rest)
]

get_rest : List ℕ → ℕ → Option (List ℕ) → List ℕ × Option (List ℕ)
unfolding split_at
get_rest old n none = (old, none)
get_rest old n (some bs) = elim (split_at n bs) [
  | none ↦ (old, none)
  | some (s, rest) ↦ (s, some rest)
]

get_string : List ℕ → Option (List ℕ) → List ℕ × Option (List ℕ)
unfolding get_rest
get_string old is = let (n, is') = get_u32 0 is in get_rest old n is'

-- What was written, and the room that is left; `none` after a failure.
abbrev put_bytes : List ℕ → Option (List ℕ × ℕ) → Option (List ℕ × ℕ)
put_bytes bs none = none
put_bytes bs (some (ws, k)) = if ltb k (length bs) then none else some (ws ++ bs, k - length bs)

abbrev is_none {ℓ} : {A : Type ℓ} → Option A → Bool
is_none none = true
is_none (some a) = false

abbrev bytes_of : Option (List ℕ × ℕ) → List ℕ
bytes_of none = []
bytes_of (some (ws, k)) = ws

length-encode_item : (x : Item) → length (encode_item x) ≡ item_size x
length-encode_item (u8 n) = refl
length-encode_item (u16 n) = refl
length-encode_item (u32 n) = refl
length-encode_item (str s) = omega arith

encode-append : (xs : List Item) (x : Item) → encode (xs ++ x ∷ []) ≡ encode xs ++ encode_item x
encode-append [] x = append-nil (encode_item x)
encode-append (y ∷ xs) x =
    ap (λ l. encode_item y ++ l) (encode-append xs x)
    ∙ sym (append_assoc (encode_item y) (encode xs) (encode_item x))

split_at-append : (s rest : List ℕ) → split_at (length s) (s ++ rest) ≡ some (s, rest)
unfolding split_at
split_at-append [] rest = refl
split_at-append (b ∷ s) rest = rw (split_at-append s rest)

put_item :
    (x : Item) (xs : List Item) (k : ℕ)
    → put_bytes (encode_item x) (some (encode xs, item_size x + k))
      ≡ some (encode (xs ++ x ∷ []), k)
put_item x xs k =
    let e : length (encode_item x) ≡ item_size x = length-encode_item x in
    let t : ltb (item_size x + k) (item_size x) ≡ false = ground arith in
    let r : item_size x + k - item_size x ≡ k = omega arith in rw (e, t, r, encode-append xs x)

no_room :
    (x : Item) (ws : List ℕ) (k : ℕ)
    → k < item_size x
    → is_none (put_bytes (encode_item x) (some (ws, k))) ≡ true
no_room x ws k h = let t : ltb k (item_size x) ≡ true = ground arith in rw (length-encode_item x, t)

stays :
    (bs : List ℕ) (os : Option (List ℕ × ℕ)) → is_none os ≡ true → is_none (put_bytes bs os) ≡ true
stays bs none h = refl
stays bs (some (ws, k)) h = cc

pair :
    {A : Type 0} {a b : A} (is : Option (List ℕ))
    → a ≡ b
    → ◌≡◌ {A = A × Option (List ℕ)} (a, is) (b, is)
pair is e i = (e i, is)

value16 : (n : ℕ) → n < 65536 → n % 256 + 256 * (n / 256) ≡ n
value16 n h = omega arith

value32 :
    (n : ℕ)
    → n < u32_mod
    → n % 256 + 256 * (n / 256 % 256) + 65536 * (n / 65536 % 256) + 16777216 * (n / 16777216) ≡ n
value32 n h = omega arith

rest_string : (s old rest : List ℕ) → get_rest old (length s) (some (s ++ rest)) ≡ (s, some rest)
unfolding get_rest
rest_string s old rest = rw (get_rest, split_at-append s rest)

gets_string :
    (s old : List ℕ) (xs : List Item)
    → length s < u32_mod
    → get_string old (some (encode (str s ∷ xs))) ≡ (s, some (encode xs))
unfolding get_string get_rest
gets_string s old xs h =
    ap (λ n. get_rest old n (some (s ++ encode xs))) (value32 (length s) h)
    ∙ rest_string s old (encode xs)

pub bytes : ByteStream
unfolding get_string
bytes = record {
  In = Option (List ℕ);
  Out = Option (List ℕ × ℕ);
  garbage = 7;
  open_in = λ bs. some bs;
  fail = is_none;
  read_u8 = get_u8;
  read_u16 = get_u16;
  read_u32 = get_u32;
  read_string = get_string;
  open_out = λ k. some ([], k);
  os_fail = is_none;
  write_u8 = λ n. put_bytes (encode_item (u8 n));
  write_u16 = λ n. put_bytes (encode_item (u16 n));
  write_u32 = λ n. put_bytes (encode_item (u32 n));
  write_string = λ s. put_bytes (encode_item (str s));
  contents = bytes_of;
  reader = λ xs. some (encode xs);
  writer = λ xs k. some (encode xs, k);
  opened_out = λ k. refl;
  opened_in = λ xs k. refl;
  reader_good = λ xs. refl;
  reads_u8 = λ n old xs h. refl;
  reads_u16 = λ n old xs h. pair _ (value16 n h);
  reads_u32 = λ n old xs h. pair _ (value32 n h);
  reads_string = gets_string;
  writer_good = λ xs k. refl;
  writes_u8 = λ n xs k h. put_item (u8 n) xs k;
  writes_u16 = λ n xs k h. put_item (u16 n) xs k;
  writes_u32 = λ n xs k h. put_item (u32 n) xs k;
  writes_string = λ s xs k h. put_item (str s) xs k;
  no_room_u8 = λ n xs. no_room (u8 n) (encode xs);
  no_room_u16 = λ n xs. no_room (u16 n) (encode xs);
  no_room_u32 = λ n xs. no_room (u32 n) (encode xs);
  no_room_string = λ s xs. no_room (str s) (encode xs);
  stays_u8 = λ n. stays (encode_item (u8 n));
  stays_u16 = λ n. stays (encode_item (u16 n));
  stays_u32 = λ n. stays (encode_item (u32 n));
  stays_string = λ s. stays (encode_item (str s));
}
