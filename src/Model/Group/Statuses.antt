-- ===== src/Model/Group/Statuses.antt =====
-- The map of statuses that the group manager reads, and the lists that it makes of it.
use zattd.Base.{
  ℕ, ◌≡◌, refl, Bool, true, false, ◌&&◌, List, [], ◌∷◌, Option, none, some, arith, ℤ, pos, int_eq,
  signed32, i32_limit, ltb, int_eq-signed32, int_eq_refl,
}
use zattd.Base.StdMap.{StdMap, find, insert, IsSorted, find-insert, put-IsSorted, find_at}
use zattd.Proto.BaseData.{GroupInfo}
use zattd.Model.Group.Database.{UserStatus, elem, has_row, status_in}
use zattd.Model.Group.Manager.{insert_statuses, new_relations, ids_with}

insert-IsSorted : (k v : ℕ) (m : StdMap ℕ) → IsSorted m → IsSorted (insert k v m)
unfolding insert
insert-IsSorted k v m s = ground (arith, put-IsSorted k v m s)

pub insert_statuses-IsSorted :
    (rows : List UserStatus) (m : StdMap ℕ) → IsSorted m → IsSorted (insert_statuses rows m)
unfolding insert_statuses
insert_statuses-IsSorted [] m s = s
insert_statuses-IsSorted (r ∷ rows) m s =
    insert_statuses-IsSorted rows _ (insert-IsSorted r.user_id r.status m s)

-- A status that is there stays, and otherwise the first row counts.
pub find-insert_statuses :
    (u : ℕ) (rows : List UserStatus) (m : StdMap ℕ)
    → find u (insert_statuses rows m)
      ≡ elim (find u m) [ some s ↦ some s | none ↦ status_in u rows ]
unfolding insert_statuses
find-insert_statuses u [] m = ground arith
find-insert_statuses u (r ∷ rows) m = ground (
  arith,
  find-insert r.user_id u r.status m,
  find-insert_statuses u rows (insert r.user_id r.status m),
)

abbrev pub passes : (ℕ → Bool) → Option ℕ → Bool
passes test none = false
passes test (some s) = test s

pub elem-ids_with :
    (test : ℕ → Bool) (u : ℕ) (m : StdMap ℕ)
    → IsSorted m
    → elem u (ids_with test m) ≡ passes test (find u m)
unfolding ids_with find
elem-ids_with test u [] s = refl
elem-ids_with test u ((k, v) ∷ []) s = ground arith
elem-ids_with test u ((k, v) ∷ (j, x) ∷ m) s =
    ground (arith, elem-ids_with test u ((j, x) ∷ m), find_at k ((j, x) ∷ m))

abbrev pub is_absent : Option ℕ → Bool
is_absent none = true
is_absent (some s) = false

pub has_row-new_relations :
    (now k : ℕ) (group : GroupInfo) (m : StdMap ℕ) (ids : List ℕ) (g : ℤ) (u : ℕ)
    → has_row g (pos u) (new_relations now k group m ids)
      ≡ int_eq (signed32 k) g && (elem u ids && (is_absent (find u m) && ltb u i32_limit))
unfolding new_relations
has_row-new_relations now k group m [] g u = ground arith
has_row-new_relations now k group m (i ∷ ids) g u =
    ground (arith, has_row-new_relations now k group m ids g u, int_eq-signed32 i u)

-- A listed user without a status has a row under the number that `%d` prints.
pub has_row-signed32 :
    (now k : ℕ) (group : GroupInfo) (m : StdMap ℕ) (ids : List ℕ) (u : ℕ)
    → elem u ids ≡ true
    → find u m ≡ none
    → has_row (signed32 k) (signed32 u) (new_relations now k group m ids) ≡ true
unfolding new_relations
has_row-signed32 now k group m [] u h n = ground arith
has_row-signed32 now k group m (i ∷ ids) u h n = ground (
  arith,
  has_row-signed32 now k group m ids u,
  int_eq_refl (signed32 k),
  int_eq_refl (signed32 u),
)
