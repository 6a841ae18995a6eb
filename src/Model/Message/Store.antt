-- ===== src/Model/Message/Store.antt =====
-- The part of the database that the relationship manager and the message manager use: the statements
-- for the tables IMRecentContact and IMMessage. A statement is a value in place of its text: an integer
-- stands for what `%i` prints of a uint32, and a natural number for a parameter or for what
-- UintToString prints. The record has no laws.
use zattd.Base.{ℕ, List, Option, ℤ}

-- A row of a query for the relations of two users.
pub record ContactStatus : Type 0 where
  pub relate_id : ℕ
  pub status : ℕ

-- A row of `INSERT INTO IMRecentContact`.
pub record Contact : Type 0 where
  pub user_id : ℕ
  pub friend_user_id : ℕ
  pub status : ℕ
  pub created : ℕ
  pub updated : ℕ

-- The row of `INSERT INTO IMMessage`.
pub record Message : Type 0 where
  pub relate_id : ℕ
  pub from_user_id : ℕ
  pub to_user_id : ℕ
  pub content : List ℕ
  pub type : ℕ
  pub created : ℕ
  pub updated : ℕ

pub record Store : Type 1 where
  pub World : Type 0
  -- The relate ids of the contacts of one user with another, or no answer.
  pub select_relate_id : ℤ → ℤ → World → Option (List ℕ)
  -- The contacts of the first user with the second, or of the third with the fourth.
  pub select_contacts : ℕ → ℕ → ℕ → ℕ → World → Option (List ContactStatus)
  -- UPDATE IMRecentContact SET status = 0 WHERE relateId in (…) LIMIT 4; the count is an int, given by
  -- its 32 bits.
  pub restore_contacts : List ℕ → World → ℕ × World
  -- UPDATE IMRecentContact SET status = 1 for a user and a friend, LIMIT 1.
  pub delete_contact : ℤ → ℤ → World → ℕ × World
  -- What ExecuteInsertID returns, and Execute.
  pub insert_contacts : List Contact → World → ℕ × World
  pub insert_message : Message → World → ℕ × World
