-- ===== src/Model/Group/Tests.antt =====
-- The theorems on the members of groups over a concrete database.
use zattd.Base.{
  ℕ, ◌≡◌, refl, true, false, ◌&&◌, [], ◌∷◌, List, none, some, if◌then◌else◌, arith, ℤ, pos, int_eq,
  signed32, i32_limit, ltb,
}
use zattd.Proto.BaseData.{new_group_info}
use zattd.Model.Group.Database.{elem, listed, set_status}
use zattd.Model.Group.Manager.{create_group, join_group, quit_group}
use zattd.Model.Group.Creation.{create_group-status}
use zattd.Model.Group.Members.{
  joined, join_group-status, join_group-signed32, quit_group-status, quit_group_refuses,
}
use zattd.Model.Group.Example.{answer, database, members, group_9}

-- Someone who left, someone new, and someone whose id does not fit an int.
abbrev some_users : List ℕ
some_users = 6 ∷ 7 ∷ 3000000000 ∷ []

join_group-status_example :
    (join_group database 1000 some_users 9 group_9 members).1 (pos 9) (pos 7) ≡ (
      if int_eq (signed32 9) (pos 9) && elem 7 some_users
      then joined database 7 (members (pos 9) (pos 7))
      else members (pos 9) (pos 7))
join_group-status_example =
    join_group-status database 1000 some_users 9 group_9 members (answer (pos 9) some_users members)
      refl (ground arith) refl refl (pos 9) 7

join_group-signed32_example :
    let w' = (join_group database 1000 some_users 9 group_9 members).1 in
    (w' (signed32 9) (pos 3000000000) ≡ none) × (w' (signed32 9) (signed32 3000000000) ≡ some 1)
join_group-signed32_example =
    join_group-signed32 database 1000 some_users 9 group_9 members
      (answer (pos 9) some_users members) 3000000000 (ground arith) refl refl refl (ground arith)
      refl refl

quit_group-status_example :
    (quit_group database 1000 5 (5 ∷ []) 9 group_9 members).1 (pos 9) (pos 5) ≡ (
      if int_eq (signed32 9) (pos 9) && listed (pos 5) (5 ∷ [])
      then set_status 0 (members (pos 9) (pos 5))
      else members (pos 9) (pos 5))
quit_group-status_example =
    quit_group-status database 1000 5 (5 ∷ []) 9 group_9 members (answer (pos 9) (5 ∷ []) members)
      refl (ground arith) (ground arith) refl refl refl (pos 9) (pos 5)

quit_group_refuses_example :
    quit_group database 1000 6 (5 ∷ []) 9 group_9 members ≡ (false, members)
quit_group_refuses_example =
    quit_group_refuses database 1000 6 (5 ∷ []) 9 group_9 members (ground arith)

no_group_10 : (z : ℤ) → members (signed32 10) z ≡ none
no_group_10 z = refl

create_group-status_example :
    let (ok, made, w2) =
      create_group database 1 2 3 4 5 (65 ∷ []) 2 [] [] some_users new_group_info members in
    (ok ≡ true)
    × (made.group_id ≡ 10)
    × ((g : ℤ) (u : ℕ)
        → w2 g (pos u) ≡ (
            if int_eq (signed32 10) g && (elem u some_users && ltb u i32_limit)
            then some 1
            else members g (pos u)))
create_group-status_example =
    create_group-status database 1 2 3 4 5 (65 ∷ []) 2 [] [] some_users new_group_info members
      members 10 (answer (pos 10) some_users members) (ground arith) refl (ground arith) refl refl
      (ground arith) (ground arith) no_group_10 refl
