-- ===== src/Model/Group/Creation.antt =====
-- Who is a member of a group that CreateGroup has made.
use zattd.Base.{
  ℕ, ◌/◌, ◌<◌, ◌≡◌, ◌≢◌, refl, true, false, ◌&&◌, List, some, if◌then◌else◌, ◌==◌, ltb, arith,
  is_empty, to_u32, u32_mod, ℤ, pos, int_eq, int_eq_eq, signed32, i32_limit, ◌∙◌, none,
}
use zattd.Proto.BaseData.{GroupInfo}
use zattd.Model.Group.Database.{UserStatus, Database, elem}
use zattd.Model.Group.Manager.{create_group, new_group_query, join_group}
use zattd.Model.Group.Members.{join_group-status}

module _ (D : Database) where
  open D use {World, select_status, status_of, insert_group, new_status}

  join_group_succeeds :
      (now : ℕ) (ids : List ℕ) (k : ℕ) (group : GroupInfo) (w : World)
      → is_empty ids ≡ false
      → k ≢ 0
      → k ≡ group.group_id
      → (join_group D now ids k group w).0 ≡ true
  unfolding join_group
  join_group_succeeds now ids k group w ne hk same = ground arith

  -- CreateGroup with a creator and a type that are not 0, a name and a list of members that are
  -- not empty, when the insertion gives an id between 0 and 2^32, exclusive, without rows for
  -- members, and the query about the members an answer: it succeeds, the group has that id, each
  -- listed user with an id below 2^31 gets a row with the status of new rows, and no other status
  -- under a natural number changes.
  pub create_group-status :
      (now_1 now_2 now_3 now_4 creator : ℕ) (name : List ℕ) (type : ℕ) (avatar adesc ids : List ℕ)
      (group : GroupInfo) (w w1 : World) (id : ℕ) (rows : List UserStatus)
      → creator ≢ 0
      → is_empty name ≡ false
      → type ≢ 0
      → is_empty ids ≡ false
      → insert_group (new_group_query D (to_u32 (now_2 / 1000)) creator name type avatar adesc) w
        ≡ (id, w1)
      → 0 < id
      → id < u32_mod
      → ((z : ℤ) → status_of w1 (signed32 id) z ≡ none)
      → select_status (signed32 id) ids w1 ≡ some rows
      → let (ok, made, w2) =
          create_group D now_1 now_2 now_3 now_4 creator name type avatar adesc ids group w in
        (ok ≡ true)
        × (made.group_id ≡ id)
        × ((g : ℤ) (u : ℕ)
            → status_of w2 g (pos u) ≡ (
                if int_eq (signed32 id) g && (elem u ids && ltb u i32_limit)
                then some new_status
                else status_of w1 g (pos u)))
  unfolding create_group
  create_group-status now_1 now_2 now_3 now_4 creator name type avatar adesc ids group w w1 id rows
        hc hn ht ne made above below fresh e =
      let z : (creator == 0) ≡ false = ground arith in
      let y : (type == 0) ≡ false = ground arith in
      let p : ltb 0 id ≡ true = ground arith in
      let t : to_u32 id ≡ id = omega arith in
      let k : id ≢ 0 = ground arith in
      let new : GroupInfo = record group {
        group_id = id;
        group_creator_id = creator;
        group_name = name;
        group_avatar = avatar;
        group_type = type;
        group_updated = to_u32 now_3;
      } in
      rw (made, z, hn, y, p, t)
        (
          join_group_succeeds now_4 ids id new w1 ne k refl,
          refl,
          λ g u.
              join_group-status D now_4 ids id new w1 rows ne k refl e g u
              ∙ ground (arith, fresh (pos u), int_eq_eq (signed32 id) g),
        )
