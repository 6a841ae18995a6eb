-- ===== src/Model/Group/Members.antt =====
-- Who is a member of a group after JoinGroup and QuitGroup.
use zattd.Base.{
  ℕ, ◌≡◌, ◌≢◌, refl, true, false, not, ◌&&◌, List, [], ◌∷◌, Option, none, some, if◌then◌else◌, ◌==◌,
  arith, is_empty, to_u32, Bool-cases, inl, inr, ◌∙◌, ◌≤◌, ltb, ℤ, pos, negsuc, int_eq, int_eq_eq,
  signed32, i32_limit,
}
use zattd.Base.StdMap.{find, StdMap, IsSorted}
use zattd.Proto.BaseData.{GroupInfo}
use zattd.Model.Group.Database.{
  UserStatus, Relation, Database, elem, listed, has_row, set_status, activate, deactivate,
}
use zattd.Model.Group.Manager.{
  user_statuses, new_relations, ids_with, is_zero, is_active, insert_all, update_all, join_members,
  join_group, quit_members, quit_group,
}
use zattd.Model.Group.Statuses.{
  insert_statuses-IsSorted, find-insert_statuses, elem-ids_with, has_row-new_relations,
  has_row-signed32,
}

module _ (D : Database) where
  open D use {World, select_status, execute, status_of, new_status}

  -- The status, under its own number, of a user that joins.
  abbrev pub joined : ℕ → Option ℕ → Option ℕ
  joined u none = if ltb u i32_limit then some new_status else none
  joined u (some s) = if s == 0 then some 1 else some s

  statuses-IsSorted : (rows : List UserStatus) → IsSorted (user_statuses (some rows))
  unfolding user_statuses
  statuses-IsSorted rows = insert_statuses-IsSorted rows [] tt

  find-statuses :
      (g : ℤ) (ids : List ℕ) (w : World) (rows : List UserStatus)
      → select_status g ids w ≡ some rows
      → (u : ℕ)
      → find u (user_statuses (some rows)) ≡ (if elem u ids then status_of w g (pos u) else none)
  unfolding user_statuses find
  find-statuses g ids w rows e u = find-insert_statuses u rows [] ∙ D.selects g ids w rows e u

  status-insert_all :
      (rows : List Relation) (w : World) (g z : ℤ)
      → (has_row g z rows ≡ true → status_of w g z ≡ none)
      → status_of (insert_all D rows w).1 g z
        ≡ (if has_row g z rows then some new_status else status_of w g z)
  unfolding insert_all
  status-insert_all [] w g z h = refl
  status-insert_all (r ∷ rows) w g z h = elim (Bool-cases (has_row g z (r ∷ rows))) [
    | inl here ↦ rw here (D.inserts (r ∷ rows) w g z here (h here))
    | inr away ↦ rw away (D.inserts_no_other (r ∷ rows) w g z away)
  ]

  status-activate :
      (k : ℤ) (ids : List ℕ) (w : World) (g z : ℤ)
      → status_of (update_all D (activate k) ids w).1 g z
        ≡ (if int_eq k g && listed z ids then set_status 1 (status_of w g z) else status_of w g z)
  unfolding update_all
  status-activate k [] w g (pos u) = ground arith
  status-activate k [] w g (negsuc n) = ground arith
  status-activate k (i ∷ ids) w g z = D.activates k (i ∷ ids) w g z

  status-deactivate :
      (now k : ℤ) (ids : List ℕ) (w : World) (g z : ℤ)
      → status_of (update_all D (deactivate now k) ids w).1 g z
        ≡ (if int_eq k g && listed z ids then set_status 0 (status_of w g z) else status_of w g z)
  unfolding update_all
  status-deactivate now k [] w g (pos u) = ground arith
  status-deactivate now k [] w g (negsuc n) = ground arith
  status-deactivate now k (i ∷ ids) w g z = D.deactivates now k (i ∷ ids) w g z

  elem-is_empty : (u : ℕ) (ids : List ℕ) → elem u ids ≡ true → is_empty ids ≡ false
  elem-is_empty u [] h = ground arith
  elem-is_empty u (i ∷ ids) h = refl

  -- The map of statuses that an answer about the users `ids` of group `k` makes.
  pub record Answers (k : ℕ) (ids : List ℕ) (w : World) (m : StdMap ℕ) : Type 0 where
    pub sorted : IsSorted m
    pub finds : (u : ℕ) → find u m ≡ (if elem u ids then status_of w (signed32 k) (pos u) else none)

  statuses-Answers :
      (k : ℕ) (ids : List ℕ) (w : World) (rows : List UserStatus)
      → select_status (signed32 k) ids w ≡ some rows
      → Answers k ids w (user_statuses (some rows))
  statuses-Answers k ids w rows e = record {
    sorted = statuses-IsSorted rows;
    finds = find-statuses (signed32 k) ids w rows e;
  }

  new_is_absent :
      (now k : ℕ) (ids : List ℕ) (group : GroupInfo) (w : World) (m : StdMap ℕ)
      → Answers k ids w m
      → (g : ℤ) (u : ℕ) → has_row g (pos u) (new_relations now k group m ids) ≡ true
      → status_of w g (pos u) ≡ none
  new_is_absent now k ids group w m a g u h =
      ground
        (arith, has_row-new_relations now k group m ids g u, a.finds u, int_eq_eq (signed32 k) g)

  status-join_members :
      (now k : ℕ) (ids : List ℕ) (group : GroupInfo) (w : World) (m : StdMap ℕ)
      → Answers k ids w m
      → (g : ℤ) (u : ℕ)
      → status_of (join_members D now ids k group m w) g (pos u) ≡ (
          if int_eq (signed32 k) g && elem u ids
          then joined u (status_of w g (pos u))
          else status_of w g (pos u))
  unfolding join_members
  status-join_members now k ids group w m a g u =
      let new = new_relations now k group m ids in
      let old = ids_with is_zero m in
      let w1 = (insert_all D new w).1 in
      let w2 = (update_all D (activate (signed32 k)) old w1).1 in
      let inserted : status_of w1 g (pos u)
          ≡ (if has_row g (pos u) new then some new_status else status_of w g (pos u)) =
        status-insert_all new w g (pos u) (new_is_absent now k ids group w m a g u) in
      D.adds_members (signed32 k) _ w2 g (pos u)
      ∙ status-activate (signed32 k) old w1 g (pos u)
      ∙ rw inserted (
          ground (
            arith,
            a.finds u,
            has_row-new_relations now k group m ids g u,
            elem-ids_with is_zero u m a.sorted,
            int_eq_eq (signed32 k) g,
          ))

  -- JoinGroup of a list that is not empty, for a group whose id is not 0 and is the id of the
  -- given GroupInfo, whose query gives an answer: under its own number, each listed user without a
  -- row gets a row with the status of new rows if its id is below 2^31 and no row if not, each
  -- with status 0 gets status 1, and each other keeps its status; no status under a natural number
  -- changes for another user or group.
  pub join_group-status :
      (now : ℕ) (ids : List ℕ) (k : ℕ) (group : GroupInfo) (w : World) (rows : List UserStatus)
      → is_empty ids ≡ false
      → k ≢ 0
      → k ≡ group.group_id
      → select_status (signed32 k) ids w ≡ some rows
      → (g : ℤ) (u : ℕ)
      → status_of (join_group D now ids k group w).1 g (pos u) ≡ (
          if int_eq (signed32 k) g && elem u ids
          then joined u (status_of w g (pos u))
          else status_of w g (pos u))
  unfolding join_group
  join_group-status now ids k group w rows ne hk same e g u =
      let t : not (k == group.group_id) ≡ false = ground arith in
      let z : (k == 0) ≡ false = ground arith in
      rw (ne, z, t, e)
        (status-join_members (to_u32 now) k ids group w _ (statuses-Answers k ids w rows e) g u)

  status-join_signed32 :
      (now k : ℕ) (ids : List ℕ) (group : GroupInfo) (w : World) (m : StdMap ℕ) (u : ℕ)
      → Answers k ids w m
      → elem u ids ≡ true
      → i32_limit ≤ u
      → status_of w (signed32 k) (pos u) ≡ none
      → status_of w (signed32 k) (signed32 u) ≡ none
      → status_of (join_members D now ids k group m w) (signed32 k) (signed32 u) ≡ some new_status
  unfolding join_members
  status-join_signed32 now k ids group w m u a h big absent free =
      let new = new_relations now k group m ids in
      let old = ids_with is_zero m in
      let w1 = (insert_all D new w).1 in
      let w2 = (update_all D (activate (signed32 k)) old w1).1 in
      let unknown : find u m ≡ none = ground (arith, a.finds u) in
      let here : has_row (signed32 k) (signed32 u) new ≡ true =
        has_row-signed32 now k group m ids u h unknown in
      let inserted : status_of w1 (signed32 k) (signed32 u) ≡ some new_status =
        status-insert_all new w (signed32 k) (signed32 u) (λ t. free) ∙ rw here refl in
      let unlisted : listed (signed32 u) old ≡ false = ground arith in
      D.adds_members (signed32 k) _ w2 (signed32 k) (signed32 u)
      ∙ status-activate (signed32 k) old w1 (signed32 k) (signed32 u)
      ∙ ground (arith, unlisted, inserted)

  -- JoinGroup of a list with a user whose id is 2^31 or more, for a group whose id is not 0 and is
  -- the id of the given GroupInfo, whose query gives an answer, when there is no row for the user
  -- nor for the number that %d prints for it: afterwards there is none for the user, and one with
  -- the status of new rows for that number.
  pub join_group-signed32 :
      (now : ℕ) (ids : List ℕ) (k : ℕ) (group : GroupInfo) (w : World) (rows : List UserStatus)
      (u : ℕ)
      → k ≢ 0
      → k ≡ group.group_id
      → select_status (signed32 k) ids w ≡ some rows
      → elem u ids ≡ true
      → i32_limit ≤ u
      → status_of w (signed32 k) (pos u) ≡ none
      → status_of w (signed32 k) (signed32 u) ≡ none
      → let w' = (join_group D now ids k group w).1 in
        (status_of w' (signed32 k) (pos u) ≡ none)
        × (status_of w' (signed32 k) (signed32 u) ≡ some new_status)
  unfolding join_group
  join_group-signed32 now ids k group w rows u hk same e h big absent free =
      let t : not (k == group.group_id) ≡ false = ground arith in
      let z : (k == 0) ≡ false = ground arith in
      let ne : is_empty ids ≡ false = elem-is_empty u ids h in
      let a = statuses-Answers k ids w rows e in
      rw (ne, z, t, e)
        (
          status-join_members (to_u32 now) k ids group w _ a (signed32 k) u
              ∙ ground (arith, absent),
          status-join_signed32 (to_u32 now) k ids group w _ u a h big absent free,
        )

  quit_cases :
      (k : ℕ) (ids : List ℕ) (w : World) (m : StdMap ℕ)
      → Answers k ids w m
      → (g z : ℤ)
      → (if int_eq (signed32 k) g && listed z (ids_with is_active m)
          then set_status 0 (status_of w g z)
          else status_of w g z)
        ≡ (if int_eq (signed32 k) g && listed z ids
            then set_status 0 (status_of w g z)
            else status_of w g z)
  quit_cases k ids w m a g (pos u) =
      ground (arith, a.finds u, elem-ids_with is_active u m a.sorted, int_eq_eq (signed32 k) g)
  quit_cases k ids w m a g (negsuc n) = refl

  status-quit_members :
      (now k : ℕ) (ids : List ℕ) (w : World) (m : StdMap ℕ)
      → Answers k ids w m
      → (g z : ℤ)
      → status_of (quit_members D now k m w) g z ≡ (
          if int_eq (signed32 k) g && listed z ids
          then set_status 0 (status_of w g z)
          else status_of w g z)
  unfolding quit_members
  status-quit_members now k ids w m a g z =
      let old = ids_with is_active m in
      let w1 = (update_all D (deactivate (signed32 now) (signed32 k)) old w).1 in
      D.removes_members (signed32 now) (signed32 k) _ w1 g z
      ∙ status-deactivate (signed32 now) (signed32 k) old w g z
      ∙ quit_cases k ids w m a g z

  -- QuitGroup of a list that is not empty, asked by the creator of the group, whose ids are not 0,
  -- for the id of the given GroupInfo, whose query gives an answer: each listed user that has a
  -- row has status 0 in it, and no other status changes.
  pub quit_group-status :
      (now request : ℕ) (ids : List ℕ) (k : ℕ) (group : GroupInfo) (w : World)
      (rows : List UserStatus)
      → is_empty ids ≡ false
      → k ≢ 0
      → request ≢ 0
      → request ≡ group.group_creator_id
      → k ≡ group.group_id
      → select_status (signed32 k) ids w ≡ some rows
      → (g z : ℤ)
      → status_of (quit_group D now request ids k group w).1 g z ≡ (
          if int_eq (signed32 k) g && listed z ids
          then set_status 0 (status_of w g z)
          else status_of w g z)
  unfolding quit_group
  quit_group-status now request ids k group w rows ne hk hr creator same e g z =
      let t : not (k == group.group_id) ≡ false = ground arith in
      let c : not (request == group.group_creator_id) ≡ false = ground arith in
      let y : (k == 0) ≡ false = ground arith in
      let r : (request == 0) ≡ false = ground arith in
      rw (ne, y, r, c, t, e)
        (status-quit_members (to_u32 now) k ids w _ (statuses-Answers k ids w rows e) g z)

  -- QuitGroup asked by a user that is not the creator of the group returns false and leaves the
  -- database as it was.
  pub quit_group_refuses :
      (now request : ℕ) (ids : List ℕ) (k : ℕ) (group : GroupInfo) (w : World)
      → request ≢ group.group_creator_id
      → quit_group D now request ids k group w ≡ (false, w)
  unfolding quit_group
  quit_group_refuses now request ids k group w h = ground arith

  pub quit_group_keeps :
      (now request : ℕ) (ids : List ℕ) (k : ℕ) (group : GroupInfo) (w : World)
      → (request == group.group_creator_id && not (request == 0)) ≡ false
      → (quit_group D now request ids k group w).1 ≡ w
  unfolding quit_group
  quit_group_keeps now request ids k group w h = ground arith
