-- ===== src/Model/Group/Manager.antt =====
-- JoinGroup and QuitGroup of zaresd/model/zares/zares_group_manager_impl.cc. The time is a parameter:
-- what base::NowMSTime() returns.
use zattd.Base.{
  ℕ, ◌+◌, ◌/◌, ltb, Bool, true, false, not, ◌||◌, List, [], ◌∷◌, Option, none, some, if◌then◌else◌,
  ◌==◌, is_empty, to_u32, pos, signed32,
}
use zattd.Base.StdMap.{StdMap, find, insert}
use zattd.Proto.BaseData.{GroupInfo}
use zattd.Model.Group.Database.{
  UserStatus, Relation, NewGroup, place, literal, text, number, Statement, insert_relations,
  activate, deactivate, add_members, remove_members, Database,
}

-- The loop over the answer: user_statuss.insert(…) for each row.
unfoldable pub insert_statuses : List UserStatus → StdMap ℕ → StdMap ℕ
insert_statuses [] user_statuss = user_statuss
insert_statuses (r ∷ rows) user_statuss =
    insert_statuses rows (insert r.user_id r.status user_statuss)

-- No answer leaves the map empty.
unfoldable pub user_statuses : Option (List UserStatus) → StdMap ℕ
unfolding insert_statuses
user_statuses none = []
user_statuses (some rows) = insert_statuses rows []

-- The rows for the users without a status, in order; `%d` prints all their values.
unfoldable pub new_relations : ℕ → ℕ → GroupInfo → StdMap ℕ → List ℕ → List Relation
new_relations now group_id group user_statuss [] = []
new_relations now group_id group user_statuss (u ∷ user_ids) =
    let rest = new_relations now group_id group user_statuss user_ids in
    elim (find u user_statuss) [
      | none ↦
          record {
            group_id = signed32 group_id;
            user_id = signed32 u;
            title = if group.group_creator_id == u then pos 1 else pos 0;
            group_type = signed32 group.group_type;
            created = signed32 now;
            updated = signed32 now;
          }
          ∷ rest
      | some s ↦ rest
    ]

-- The users whose status is 0, or is not, in the order of the map.
unfoldable pub ids_with : (ℕ → Bool) → StdMap ℕ → List ℕ
ids_with test [] = []
ids_with test ((k, s) ∷ m) = let rest = ids_with test m in if test s then k ∷ rest else rest

abbrev pub is_zero : ℕ → Bool
is_zero s = s == 0

abbrev pub is_active : ℕ → Bool
is_active s = not (s == 0)

-- What a C string of the bytes holds: it ends at the first NUL.
abbrev pub c_str : List ℕ → List ℕ
c_str [] = []
c_str (b ∷ s) = let rest = c_str s in if b == 0 then [] else b ∷ rest

module _ (D : Database) where
  open D use {World, select_status, execute}

  unfoldable pub insert_all : List Relation → World → ℕ × World
  insert_all rows w = if is_empty rows then (0, w) else execute (insert_relations rows) w

  unfoldable pub update_all : (List ℕ → Statement) → List ℕ → World → ℕ × World
  update_all statement ids w = if is_empty ids then (0, w) else execute (statement ids) w

  -- What JoinGroup does after its checks and its query.
  unfoldable pub join_members : ℕ → List ℕ → ℕ → GroupInfo → StdMap ℕ → World → World
  unfolding new_relations ids_with insert_all update_all
  join_members now user_ids group_id group user_statuss w =
      let (insert_count, w1) =
        insert_all (new_relations now group_id group user_statuss user_ids) w in
      let (update_count, w2) =
        update_all (activate (signed32 group_id)) (ids_with is_zero user_statuss) w1 in
      (execute (add_members (signed32 group_id) (signed32 (to_u32 (insert_count + update_count))))
        w2).1

  unfoldable pub join_group : ℕ → List ℕ → ℕ → GroupInfo → World → Bool × World
  unfolding user_statuses join_members
  join_group now user_ids group_id group w =
      let user_statuss = user_statuses (select_status (signed32 group_id) user_ids w) in
      if is_empty user_ids || group_id == 0
      then (false, w)
      else if not (group_id == group.group_id)
      then (false, w)
      else (true, join_members (to_u32 now) user_ids group_id group user_statuss w)

  -- What QuitGroup does after its checks and its query.
  unfoldable pub quit_members : ℕ → ℕ → StdMap ℕ → World → World
  unfolding ids_with update_all
  quit_members now group_id user_statuss w =
      let (update_count, w1) =
        update_all (deactivate (signed32 now) (signed32 group_id)) (ids_with is_active user_statuss)
          w in
      (execute (remove_members (signed32 now) (signed32 group_id) (signed32 update_count)) w1).1

  unfoldable pub quit_group : ℕ → ℕ → List ℕ → ℕ → GroupInfo → World → Bool × World
  unfolding user_statuses quit_members
  quit_group now request_user_id quit_user_ids group_id group w =
      let user_statuss = user_statuses (select_status (signed32 group_id) quit_user_ids w) in
      if is_empty quit_user_ids || group_id == 0 || request_user_id == 0 || group_id == 0
      then (false, w)
      else if not (request_user_id == group.group_creator_id) || not (group_id == group.group_id)
      then (false, w)
      else (true, quit_members (to_u32 now) group_id user_statuss w)

  unfoldable pub get_group_info : ℕ → World → Option GroupInfo
  get_group_info group_id w = if group_id == 0 then none else D.select_group (signed32 group_id) w

  abbrev pub new_group_query : ℕ → ℕ → List ℕ → ℕ → List ℕ → List ℕ → NewGroup
  new_group_query now create_user_id group_name group_type avatar adesc = record {
    values = place 1 ∷ place 2 ∷ place 3 ∷ place 4 ∷ place 5 ∷ literal 0 ∷ place 7 ∷ place 8 ∷ [];
    params =
        text (c_str group_name)
        ∷ text (c_str avatar)
        ∷ text (c_str adesc)
        ∷ number create_user_id
        ∷ number group_type
        ∷ number now
        ∷ number now
        ∷ [];
  }

  -- CreateGroup with the four times that NowMSTime() returns: whether it succeeds, and the group.
  unfoldable pub create_group :
      ℕ
      → ℕ
      → ℕ
      → ℕ
      → ℕ
      → List ℕ
      → ℕ
      → List ℕ
      → List ℕ
      → List ℕ
      → GroupInfo
      → World
      → Bool × GroupInfo × World
  unfolding join_group
  create_group now_1 now_2 now_3 now_4 create_user_id group_name group_type avatar adesc
        member_user_ids group w =
      let asked = record group {
        group_id = 0;
        group_creator_id = create_user_id;
        group_name = group_name;
        group_avatar = avatar;
        group_type = group_type;
        group_updated = to_u32 (now_1 / 1000);
      } in
      let query =
        new_group_query (to_u32 (now_2 / 1000)) create_user_id group_name group_type avatar adesc in
      let (id, w1) = D.insert_group query w in
      let made = record asked { group_id = to_u32 id; group_updated = to_u32 now_3 } in
      let (joined, w2) = join_group now_4 member_user_ids (to_u32 id) made w1 in
      if create_user_id == 0 || is_empty group_name || group_type == 0
      then (false, group, w)
      else if ltb 0 id
      then (joined, made, w2)
      else (false, asked, w1)
