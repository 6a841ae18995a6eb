-- ===== src/Model/Group/Example.antt =====
-- A database for the tests: a function from groups and users to the status of their row.
use zattd.Base.{
  ℕ, ◌≡◌, refl, ◌&&◌, List, [], ◌∷◌, Option, none, some, if◌then◌else◌, arith, length, ℤ, pos,
  int_eq,
}
use zattd.Proto.BaseData.{GroupInfo, new_group_info}
use zattd.Model.Group.Database.{
  UserStatus, Statement, Database, insert_relations, activate, deactivate, add_members,
  remove_members, elem, listed, has_row, set_status, status_in,
}

abbrev pub Statuses : Type 0
Statuses = ℤ → ℤ → Option ℕ

-- The rows of a list of users.
abbrev pub answer : ℤ → List ℕ → Statuses → List UserStatus
answer g [] w = []
answer g (u ∷ ids) w =
    let rest = answer g ids w in
    elim (w g (pos u)) [ none ↦ rest | some s ↦ record { status = s; user_id = u } ∷ rest ]

status_in-answer :
    (g : ℤ) (ids : List ℕ) (w : Statuses) (u : ℕ)
    → status_in u (answer g ids w) ≡ (if elem u ids then w g (pos u) else none)
status_in-answer g [] w u = refl
status_in-answer g (i ∷ ids) w u = ground (arith, status_in-answer g ids w u)

abbrev pub update : ℕ → ℤ → List ℕ → Statuses → Statuses
update s k ids w = λ g z. if int_eq k g && listed z ids then set_status s (w g z) else w g z

abbrev pub run_statement : Statement → Statuses → ℕ × Statuses
run_statement (insert_relations rows) w =
    (length rows, λ g z. if has_row g z rows then some 1 else w g z)
run_statement (activate k ids) w = (length ids, update 1 k ids w)
run_statement (deactivate now k ids) w = (length ids, update 0 k ids w)
run_statement (add_members k n) w = (1, w)
run_statement (remove_members now k n) w = (1, w)

pub answer_selects :
    (g : ℤ) (ids : List ℕ) (w : Statuses) (rows : List UserStatus)
    → some (answer g ids w) ≡ some rows
    → (u : ℕ) → status_in u rows ≡ (if elem u ids then w g (pos u) else none)
answer_selects g ids w rows e u = ground (arith, status_in-answer g ids w u)

abbrev pub group_9 : GroupInfo
group_9 = record new_group_info { group_id = 9; group_creator_id = 5; group_type = 1 }

abbrev pub database : Database
database = record {
  World = Statuses;
  select_status = λ g ids w. some (answer g ids w);
  execute = run_statement;
  status_of = λ w. w;
  new_status = 1;
  selects = answer_selects;
  insert_group = λ query w. (10, w);
  select_group = λ g w. if int_eq g (pos 9) then some group_9 else none;
  inserts = λ rows w g u h n. rw h refl;
  inserts_no_other = λ rows w g u h. rw h refl;
  activates = λ k ids w g u. refl;
  deactivates = λ now k ids w g u. refl;
  adds_members = λ k n w g u. refl;
  removes_members = λ now k n w g u. refl;
}

-- User 5 is in group 9, user 6 has left it, and there is no other group.
abbrev pub members : Statuses
members = λ g z.
    if int_eq g (pos 9) && int_eq z (pos 5)
    then some 1
    else if int_eq g (pos 9) && int_eq z (pos 6)
    then some 0
    else none
