-- ===== src/Model/Message/Tests.antt =====
-- The relation of two users in a store.
use zattd.Base.{◌≡◌, refl, []}
use zattd.Model.Message.Example.{a_store}
use zattd.Model.Message.Relationship.{get_relate_id, add_friendship, relation_symmetric}

relation_symmetric_example :
    (get_relate_id a_store 6 5 [] ≡ get_relate_id a_store 5 6 [])
    × (add_friendship a_store 3000 6 5 [] ≡ add_friendship a_store 3000 5 6 [])
relation_symmetric_example = relation_symmetric a_store 3000 6 5 []

found_relation : get_relate_id a_store 6 5 [] ≡ 7
unfolding get_relate_id
found_relation = refl
