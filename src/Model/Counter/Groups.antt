-- ===== src/Model/Counter/Groups.antt =====
-- The counters of groups. Nothing in the program makes an entry for a group, and the caller of
-- GetUserGroupCount passes two of its arguments in the other order.
use zattd.Base.{ℕ, ◌≡◌, refl, ◌∙◌, List, [], ◌∷◌, arith}
use zattd.Base.StdMap.{StdMap, find, insert, find-insert}
use zattd.Model.Counter.Cache.{CacheManager, value_at, get_group_total_count}
use zattd.Model.Counter.Manager.{
  GroupCounterItem, get_user_group_count, group_unreads, clear_user_group_counter,
  incr_user_msg_count, increase_user_unread_msg_count, clear_user_unread_item_count,
  delete_user_readed_dialog_messages,
}
use zattd.Model.Counter.History.{
  Op, sent, was_read, deleted, group_cleared, run, incr_counter_for_new_message,
}

-- The item that GetUserGroupCount starts from.
abbrev pub empty_item : ℕ → ℕ → GroupCounterItem
empty_item user_id group_id = record {
  user_id = user_id;
  group_id = group_id;
  group_total_count = 0;
  user_unread_count = 0;
  last_message_id = 0;
}

no_groups :
    (user client_type group : ℕ) (c : CacheManager)
    → c.group_counter_instance ≡ []
    → get_user_group_count user client_type group c ≡ empty_item user group
unfolding get_user_group_count get_group_total_count find
no_groups user client_type group c e = ground arith

groups-clear :
    (user group client_type : ℕ) (c : CacheManager)
    → c.group_counter_instance ≡ []
    → (clear_user_group_counter user group client_type c).1.group_counter_instance ≡ []
unfolding clear_user_group_counter find
groups-clear user group client_type c e = ground arith

groups-message :
    (from to : ℕ) (c : CacheManager)
    → (incr_counter_for_new_message from to c).group_counter_instance ≡ c.group_counter_instance
unfolding incr_counter_for_new_message incr_user_msg_count increase_user_unread_msg_count
groups-message from to c = ground arith

groups-read :
    (user friend client_type : ℕ) (c : CacheManager)
    → (clear_user_unread_item_count user friend client_type c).1.group_counter_instance
      ≡ c.group_counter_instance
unfolding clear_user_unread_item_count
groups-read user friend client_type c = ground arith

groups-run : (ops : List Op) → (run ops).group_counter_instance ≡ []
unfolding run delete_user_readed_dialog_messages
groups-run [] = refl
groups-run (sent from to ∷ ops) = groups-message from to (run ops) ∙ groups-run ops
groups-run (was_read u f t ∷ ops) = groups-read u f t (run ops) ∙ groups-run ops
groups-run (deleted u f t ∷ ops) = groups-run ops
groups-run (group_cleared u g t ∷ ops) = groups-clear u g t (run ops) (groups-run ops)

-- After any history of calls, GetUserGroupCount reports an item without messages for every group:
-- no call makes the counter of a group.
pub group_count-run :
    (user client_type group : ℕ) (ops : List Op)
    → get_user_group_count user client_type group (run ops) ≡ empty_item user group
group_count-run user client_type group ops =
    no_groups user client_type group (run ops) (groups-run ops)

swapped_count :
    (user client_type group : ℕ) (c : CacheManager)
    → get_group_total_count client_type c ≡ 0
    → (get_user_group_count user group client_type c).user_unread_count ≡ 0
unfolding get_user_group_count
swapped_count user client_type group c e = ground arith

-- While no group has the id of the client type, or it has no messages, the loop of
-- GetUserGroupUnreadCount adds no count but 0 to the map of unread counts, whatever the counters
-- of the groups in the list are.
pub group_unreads_swapped :
    (user client_type k : ℕ) (group_ids : List ℕ) (c : CacheManager) (unreads : StdMap ℕ)
    → get_group_total_count client_type c ≡ 0
    → value_at (find k unreads) ≡ 0
    → value_at (find k (group_unreads user client_type group_ids c unreads)) ≡ 0
unfolding group_unreads
group_unreads_swapped user client_type k [] c unreads e h = h
group_unreads_swapped user client_type k (g ∷ group_ids) c unreads e h =
    let n = (get_user_group_count user g client_type c).user_unread_count in
    group_unreads_swapped user client_type k group_ids c (insert g n unreads) e
      (ground (arith, find-insert g k n unreads, swapped_count user client_type g c e))
