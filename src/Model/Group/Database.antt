-- ===== src/Model/Group/Database.antt =====
-- The part of the database that the group manager uses: the statements that
-- zaresd/model/zares/zares_group_manager_impl.cc makes for the tables IMGroupRelation and IMGroup, and
-- what is relied on of a database that carries them out. A statement is a value in place of its text:
-- an integer stands for what `%d` prints, and a natural number for what UintToString and JoinString
-- print. The schema is not part of the repository; the columns are taken to hold negative numbers.
use zattd.Base.{
  ℕ, ◌≡◌, Bool, true, false, ◌&&◌, ◌||◌, List, [], ◌∷◌, Option, none, some, if◌then◌else◌, ◌==◌, ℤ,
  pos, negsuc, int_eq,
}
use zattd.Proto.BaseData.{GroupInfo}

pub record UserStatus : Type 0 where
  pub status : ℕ
  pub user_id : ℕ

-- One row of `INSERT INTO IMGroupRelation`.
pub record Relation : Type 0 where
  pub group_id : ℤ
  pub user_id : ℤ
  pub title : ℤ
  pub group_type : ℤ
  pub created : ℤ
  pub updated : ℤ

pub data Statement : Type 0 where
  insert_relations : List Relation → Statement
  -- UPDATE IMGroupRelation SET status = 1 WHERE groupId = … AND userId IN (…)
  activate : ℤ → List ℕ → Statement
  -- UPDATE IMGroupRelation SET status = 0, updated = … WHERE groupId = … AND userId IN (…)
  deactivate : ℤ → ℤ → List ℕ → Statement
  -- UPDATE IMGroup SET memberCnt = memberCnt + … WHERE groupId = … LIMIT 1
  add_members : ℤ → ℤ → Statement
  -- UPDATE IMGroup SET memberCnt = memberCnt - …, updated = … WHERE groupId = … LIMIT 1
  remove_members : ℤ → ℤ → ℤ → Statement

-- What AddParam is given: a C string, or a uint32.
pub data Param : Type 0 where
  text : List ℕ → Param
  number : ℕ → Param

-- A value of a statement: `:n`, or a number written out.
pub data Value : Type 0 where
  place literal : ℕ → Value

-- `INSERT INTO IMGroup(groupName, avatar, adesc, createUserId, groupType, memberCnt, created, updated)`,
-- as it is given to MakeQueryString.
pub record NewGroup : Type 0 where
  pub values : List Value
  pub params : List Param

abbrev pub elem : ℕ → List ℕ → Bool
elem u [] = false
elem u (v ∷ l) = v == u || elem u l

-- Whether a number stands in a list of numbers without a sign.
abbrev pub listed : ℤ → List ℕ → Bool
listed (pos u) ids = elem u ids
listed (negsuc n) ids = false

abbrev pub has_row : ℤ → ℤ → List Relation → Bool
has_row g z [] = false
has_row g z (r ∷ rows) = (int_eq r.group_id g && int_eq r.user_id z) || has_row g z rows

-- The status that the first row of a user gives.
abbrev pub status_in : ℕ → List UserStatus → Option ℕ
status_in u [] = none
status_in u (r ∷ rows) = if r.user_id == u then some r.status else status_in u rows

abbrev pub set_status : ℕ → Option ℕ → Option ℕ
set_status s none = none
set_status s (some old) = some s

-- `execute` returns the count of rows, an int given by its 32 bits, and what the database becomes.
-- `status_of` is the status of the row of a group and a user, if there is one.
pub record Database : Type 1 where
  pub World : Type 0
  pub select_status : ℤ → List ℕ → World → Option (List UserStatus)
  pub execute : Statement → World → ℕ × World
  pub status_of : World → ℤ → ℤ → Option ℕ
  -- The id, a uint64, of the new row, or 0; and the row of a group whose status is not 0.
  pub insert_group : NewGroup → World → ℕ × World
  pub select_group : ℤ → World → Option GroupInfo
  -- The status that the table gives to a new row.
  pub new_status : ℕ
  pub selects :
      (g : ℤ) (ids : List ℕ) (w : World) (rows : List UserStatus)
      → select_status g ids w ≡ some rows
      → (u : ℕ) → status_in u rows ≡ (if elem u ids then status_of w g (pos u) else none)
  pub inserts :
      (rows : List Relation) (w : World) (g z : ℤ)
      → has_row g z rows ≡ true
      → status_of w g z ≡ none
      → status_of (execute (insert_relations rows) w).1 g z ≡ some new_status
  pub inserts_no_other :
      (rows : List Relation) (w : World) (g z : ℤ)
      → has_row g z rows ≡ false
      → status_of (execute (insert_relations rows) w).1 g z ≡ status_of w g z
  pub activates :
      (k : ℤ) (ids : List ℕ) (w : World) (g z : ℤ)
      → status_of (execute (activate k ids) w).1 g z
        ≡ (if int_eq k g && listed z ids then set_status 1 (status_of w g z) else status_of w g z)
  pub deactivates :
      (now k : ℤ) (ids : List ℕ) (w : World) (g z : ℤ)
      → status_of (execute (deactivate now k ids) w).1 g z
        ≡ (if int_eq k g && listed z ids then set_status 0 (status_of w g z) else status_of w g z)
  pub adds_members :
      (k n : ℤ) (w : World) (g z : ℤ)
      → status_of (execute (add_members k n) w).1 g z ≡ status_of w g z
  pub removes_members :
      (now k n : ℤ) (w : World) (g z : ℤ)
      → status_of (execute (remove_members now k n) w).1 g z ≡ status_of w g z
