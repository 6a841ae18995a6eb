-- ===== src/Base/StdMap.antt =====
-- std::map<uint32, V>: an association list in ascending order of its keys, which is the order in
-- which the code iterates.
use zattd.Base.{
  ℕ, ◌<◌, ◌≡◌, refl, List, [], ◌∷◌, ◌++◌, Option, none, some, if◌then◌else◌, ltb, ◌==◌, arith,
}

abbrev pub StdMap {ℓ} : Type ℓ → Type ℓ
StdMap V = List (ℕ × V)

module _ {ℓ} {V : Type ℓ} where
  -- m.find(k), with `none` for end().
  unfoldable pub find : ℕ → StdMap V → Option V
  find k [] = none
  find k ((j, w) ∷ m) = if j == k then some w else find k m

  -- m[k] = v
  unfoldable pub put : ℕ → V → StdMap V → StdMap V
  put k v [] = (k, v) ∷ []
  put k v ((j, w) ∷ m) =
      let rest = put k v m in
      if j == k then (k, v) ∷ m else if ltb k j then (k, v) ∷ (j, w) ∷ m else (j, w) ∷ rest

  -- m.insert(std::make_pair(k, v)): a key that is there keeps its value.
  unfoldable pub insert : ℕ → V → StdMap V → StdMap V
  insert k v m = elim (find k m) [ none ↦ put k v m | some w ↦ m ]

  -- m.erase(it) for `it` at the key, if it is there.
  unfoldable pub erase : ℕ → StdMap V → StdMap V
  erase k [] = []
  erase k ((j, w) ∷ m) = let rest = erase k m in if j == k then m else (j, w) ∷ rest

  -- The keys ascend, and lie above `k`.
  abbrev pub Above : ℕ → StdMap V → Type 0
  Above k [] = Unit {0}
  Above k ((j, w) ∷ m) = (k < j) × Above j m

  abbrev pub IsSorted : StdMap V → Type 0
  IsSorted [] = Unit {0}
  IsSorted ((j, w) ∷ m) = Above j m

  pub find-put :
      (k j : ℕ) (v : V) (m : StdMap V) → find j (put k v m) ≡ (if k == j then some v else find j m)
  unfolding find put
  find-put k j v [] = refl
  find-put k j v ((i, w) ∷ m) = ground (arith, find-put k j v m)

  Above-put : (k i : ℕ) (v : V) (m : StdMap V) → i < k → Above i m → Above i (put k v m)
  unfolding put
  Above-put k i v [] h a = (h, tt)
  Above-put k i v ((j, w) ∷ m) h a = ground (arith, Above-put k j v m)

  pub put-IsSorted : (k : ℕ) (v : V) (m : StdMap V) → IsSorted m → IsSorted (put k v m)
  unfolding put
  put-IsSorted k v [] s = tt
  put-IsSorted k v ((j, w) ∷ m) s = ground (arith, Above-put k j v m)

  Above-weaken : (i j : ℕ) (m : StdMap V) → i < j → Above j m → Above i m
  Above-weaken i j [] h a = tt
  Above-weaken i j ((k, w) ∷ m) h a = (omega arith, a.1)

  Above-erase : (k i : ℕ) (m : StdMap V) → Above i m → Above i (erase k m)
  unfolding erase
  Above-erase k i [] a = tt
  Above-erase k i ((j, w) ∷ m) a = ground (arith, Above-erase k j m, Above-weaken i j m)

  pub erase-IsSorted : (k : ℕ) (m : StdMap V) → IsSorted m → IsSorted (erase k m)
  unfolding erase
  erase-IsSorted k [] s = tt
  erase-IsSorted k ((j, w) ∷ []) s = ground arith
  erase-IsSorted k ((j, w) ∷ (i, x) ∷ m) s = ground (arith, Above-erase k j ((i, x) ∷ m))

  pub find-Above : (k i : ℕ) (m : StdMap V) → Above i m → k < i → find k m ≡ none
  unfolding find
  find-Above k i [] a h = refl
  find-Above k i ((j, w) ∷ m) a h = ground (arith, find-Above k j m)

  pub find_at : (i : ℕ) (m : StdMap V) → Above i m → find i m ≡ none
  unfolding find
  find_at i [] a = refl
  find_at i ((j, w) ∷ m) a = ground (arith, find-Above i j m)

  pub find-erase :
      (k j : ℕ) (m : StdMap V)
      → IsSorted m
      → find j (erase k m) ≡ (if k == j then none else find j m)
  unfolding find erase
  find-erase k j [] s = ground arith
  find-erase k j ((i, w) ∷ []) s = ground arith
  find-erase k j ((i, w) ∷ (i', w') ∷ m) s =
      ground (arith, find-erase k j ((i', w') ∷ m), find_at i ((i', w') ∷ m))

  pub find-insert :
      (k j : ℕ) (v : V) (m : StdMap V)
      → find j (insert k v m)
        ≡ elim (find j m) [ some w ↦ some w | none ↦ if k == j then some v else none ]
  unfolding insert
  find-insert k j v m = ground (arith, find-put k j v m)

  -- A key above all others goes to the end.
  abbrev pub AllBelow : ℕ → StdMap V → Type 0
  AllBelow k [] = Unit {0}
  AllBelow k ((j, w) ∷ m) = (j < k) × AllBelow k m

  find-AllBelow : (k : ℕ) (m : StdMap V) → AllBelow k m → find k m ≡ none
  unfolding find
  find-AllBelow k [] h = refl
  find-AllBelow k ((j, w) ∷ m) h = ground (arith, find-AllBelow k m h.1)

  put_last : (k : ℕ) (v : V) (m : StdMap V) → AllBelow k m → put k v m ≡ m ++ (k, v) ∷ []
  unfolding put
  put_last k v [] h = refl
  put_last k v ((j, w) ∷ m) h = ground (arith, put_last k v m h.1)

  pub insert_last : (k : ℕ) (v : V) (m : StdMap V) → AllBelow k m → insert k v m ≡ m ++ (k, v) ∷ []
  unfolding insert
  insert_last k v m h = rw (find-AllBelow k m h, insert) (put_last k v m h)
