-- ===== src/Server/SendTests.antt =====
-- Messages that users send, with a store of messages and some counters.
use zattd.Base.{
  ◌/◌, ℕ, ◌≡◌, arith, refl, true, false, not, [], ◌∷◌, if◌then◌else◌, ◌==◌, ◌&&◌, ◌+◌, to_u32,
}
use zattd.Proto.BasePdu.{attach_null}
use zattd.Proto.MsgData.{MsgData}
use zattd.Model.Counter.Manager.{get_user_friend_unread_count}
use zattd.Model.Counter.History.{run, sent}
use zattd.Model.Counter.Cache.{CacheManager}
use zattd.Model.Message.Example.{a_store}
use zattd.Model.Message.Relationship.{get_relate_id, check_and_update_relation}
use zattd.Server.SendMessage.{
  is_invalid, execute_msg_data, execute_msg_data-unread, execute_msg_data-other,
  execute_msg_data-counted,
}

abbrev text : ℕ → MsgData
text t = record {
  base = record { attach_data_type = attach_null; attach_data = []; reserved = 0 };
  request_id = 4;
  from_user_id = 5;
  to_user_id = 6;
  create_time = 0;
  msg_type = t;
  msg_data = 104 ∷ 105 ∷ [];
}

abbrev counters : CacheManager
counters = run (sent 5 6 ∷ sent 5 7 ∷ [])

text-valid : is_invalid (text 1) ≡ false
unfolding is_invalid
text-valid = refl

execute_msg_data-unread_example :
    let (response, c', w') =
      execute_msg_data (λ t. t / 65536) a_store 9 3000 4000 (text 1) counters [] in
    get_user_friend_unread_count 5 6 17 c' ≡ (
      if (response.result == 0 && true) && true
      then to_u32 (get_user_friend_unread_count 5 6 17 counters + 1)
      else get_user_friend_unread_count 5 6 17 counters)
execute_msg_data-unread_example =
    execute_msg_data-unread (λ t. t / 65536) a_store 9 3000 4000 (text 1) counters [] 5 6 17
      (ground arith) (ground arith)

execute_msg_data-other_example :
    let (response, c', w') =
      execute_msg_data (λ t. t / 65536) a_store 9 3000 4000 (text 17) counters [] in
    (response.result ≡ (if not (is_invalid (text 17)) && true then 0 else 1))
    × (c' ≡ counters)
    × (w' ≡ [])
execute_msg_data-other_example =
    execute_msg_data-other (λ t. t / 65536) a_store 9 3000 4000 (text 17) counters [] (ground arith)

execute_msg_data-counted_example :
    let (response, c', w') =
      execute_msg_data (λ t. t / 65536) a_store 9 3000 4000 (text 1) counters [] in
    (response.result ≡ 0)
    × (get_user_friend_unread_count 5 6 17 c'
        ≡ to_u32 (get_user_friend_unread_count 5 6 17 counters + 1))
execute_msg_data-counted_example =
    execute_msg_data-counted (λ t. t / 65536) a_store (λ row w. refl) 9 3000 4000 (text 1) counters
      [] 17 text-valid refl

sent_text : (execute_msg_data (λ t. t / 65536) a_store 9 3000 4000 (text 1) counters []).2 ≡ 7 ∷ []
unfolding execute_msg_data get_relate_id check_and_update_relation
sent_text = refl
