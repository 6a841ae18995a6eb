-- ===== src/Model/Message/Relationship.antt =====
-- ZAresRelationshipManagerImpl of zaresd/model/zares/zares_relationship_manager_impl.cc: the relation
-- of two users. The time is a parameter: what base::NowMSTime() returns.
use zattd.Base.{
  ℕ, ◌/◌, ◌≡◌, Bool, true, false, ◌||◌, List, [], ◌∷◌, Option, none, some, if◌then◌else◌, ◌==◌, ltb,
  is_empty, to_u32, signed32, arith,
}
use zattd.Model.Message.Store.{ContactStatus, Contact, Store}

abbrev pub invalid_id : ℕ
invalid_id = 4294967295

-- The first column of the first row, if there is one.
abbrev pub first_relate_id : Option (List ℕ) → ℕ
first_relate_id none = invalid_id
first_relate_id (some []) = invalid_id
first_relate_id (some (id ∷ rows)) = id

-- The loop of CheckAndUpdateRelation: the ids of the contacts that were removed.
abbrev pub removed_ids : List ContactStatus → List ℕ
removed_ids [] = []
removed_ids (r ∷ rows) =
    let rest = removed_ids rows in if r.status == 0 then rest else r.relate_id ∷ rest

abbrev pub ids_of : Option (List ContactStatus) → List ℕ
ids_of none = []
ids_of (some rows) = removed_ids rows

-- The rows of AddFriendship, for the smaller id and the larger.
abbrev pub new_contacts : ℕ → ℕ → ℕ → List Contact
new_contacts ctime usera_id userb_id =
    let one : Contact = record {
      user_id = usera_id;
      friend_user_id = userb_id;
      status = 0;
      created = ctime;
      updated = ctime;
    } in
    let other : Contact = record {
      user_id = userb_id;
      friend_user_id = usera_id;
      status = 0;
      created = ctime;
      updated = ctime;
    } in
    if usera_id == userb_id then one ∷ [] else one ∷ other ∷ []

abbrev pub smaller : ℕ → ℕ → ℕ
smaller a b = if ltb b a then b else a

abbrev pub larger : ℕ → ℕ → ℕ
larger a b = if ltb b a then a else b

module _ (S : Store) where
  open S use {
    World, select_relate_id, select_contacts, restore_contacts, delete_contact, insert_contacts,
  }

  unfoldable pub delete_recent_contact_by_user_id : ℕ → ℕ → World → Bool × World
  delete_recent_contact_by_user_id user_id friend_user_id w =
      let (count, w1) = delete_contact (signed32 user_id) (signed32 friend_user_id) w in
      (count == 0, w1)

  unfoldable pub get_relate_id : ℕ → ℕ → World → ℕ
  get_relate_id user_a_id user_b_id w =
      if user_a_id == 0 || user_b_id == 0
      then invalid_id
      else first_relate_id (
          select_relate_id (signed32 (smaller user_a_id user_b_id))
            (signed32 (larger user_a_id user_b_id)) w)

  unfoldable pub check_and_update_relation : ℕ → ℕ → World → Bool × World
  check_and_update_relation usera_id userb_id w =
      let relate_ids = ids_of (select_contacts usera_id userb_id usera_id userb_id w) in
      let (count, w1) = restore_contacts relate_ids w in
      if usera_id == 0 || userb_id == 0
      then (true, w)
      else if is_empty relate_ids
      then (false, w)
      else (count == 0, w1)

  unfoldable pub add_friendship : ℕ → ℕ → ℕ → World → ℕ × World
  unfolding get_relate_id
  add_friendship now usera_id userb_id w =
      let relate_id = get_relate_id usera_id userb_id w in
      let ctime = to_u32 (now / 1000) in
      let (id, w1) =
        insert_contacts (new_contacts ctime (smaller usera_id userb_id) (larger usera_id userb_id))
          w in
      if usera_id == 0 || userb_id == 0
      then (invalid_id, w)
      else if relate_id == invalid_id
      then (to_u32 id, w1)
      else (relate_id, w)

  smaller_comm : (a b : ℕ) → smaller a b ≡ smaller b a
  smaller_comm a b = ground arith

  larger_comm : (a b : ℕ) → larger a b ≡ larger b a
  larger_comm a b = ground arith

  -- The relation of two users does not depend on their order: GetRelateId gives the same for both
  -- orders, and AddFriendship gives and writes the same.
  pub relation_symmetric :
      (now a b : ℕ) (w : World)
      → (get_relate_id a b w ≡ get_relate_id b a w)
        × (add_friendship now a b w ≡ add_friendship now b a w)
  unfolding get_relate_id add_friendship
  relation_symmetric now a b w = ground (arith, smaller_comm a b, larger_comm a b)
