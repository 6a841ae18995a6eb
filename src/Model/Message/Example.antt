-- ===== src/Model/Message/Example.antt =====
-- A store of messages to run the methods on.
use zattd.Base.{ℕ, ◌&&◌, List, [], ◌∷◌, some, if◌then◌else◌, pos, int_eq}
use zattd.Model.Message.Store.{Store}

-- It has the relation 7 of the users 5 and 6, and keeps the relation of each message. A new relation
-- has the id 8.
abbrev pub a_store : Store
a_store = record {
  World = List ℕ;
  select_relate_id = λ a b w. some (if int_eq a (pos 5) && int_eq b (pos 6) then 7 ∷ [] else []);
  select_contacts = λ a b c d w. some (record { relate_id = 7; status = 1 } ∷ []);
  restore_contacts = λ ids w. (1, w);
  delete_contact = λ a b w. (1, w);
  insert_contacts = λ rows w. (8, w);
  insert_message = λ m w. (1, m.relate_id ∷ w);
}
