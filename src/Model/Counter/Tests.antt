-- ===== src/Model/Counter/Tests.antt =====
-- The theorems on the counters at concrete counters and histories.
use zattd.Base.{
  ◌≡◌, refl, [], ◌∷◌, List, true, ◌&&◌, some, if◌then◌else◌, ◌==◌, to_u32, take, arith, ◌+◌,
}
use zattd.Base.StdMap.{find}
use zattd.Model.Counter.Cache.{
  CacheManager, UserUnreadCount, GroupCounterInfo, value_at, new_cache,
  get_unread_count_by_client_type, get_group_total_count,
}
use zattd.Model.Counter.Manager.{
  Counter, get_user_group_count, group_unreads, get_user_friend_unread_count,
  increase_user_unread_msg_count, clear_user_unread_item_count, get_unread_msg_count,
}
use zattd.Model.Counter.Unread.{
  EntryIsSorted, UnreadIsSorted, same_slot, friend_unread-increase, friend_unread-clear,
}
use zattd.Model.Counter.History.{
  Op, sent, was_read, deleted, group_cleared, run, unread_since, sent_count, msg_count,
  run-UnreadIsSorted, friend_unread-run, msg_count-run,
}
use zattd.Model.Counter.Groups.{empty_item, group_count-run, group_unreads_swapped}
use zattd.Model.Counter.Report.{unread_report}

abbrev history : List Op
history =
    sent 5 6
    ∷ was_read 5 6 17
    ∷ group_cleared 5 9 17
    ∷ sent 5 7
    ∷ sent 5 6
    ∷ deleted 5 6 18
    ∷ sent 6 5
    ∷ []

friend_unread-run_example :
    get_user_friend_unread_count 5 6 17 (run history) ≡ to_u32 (unread_since 5 6 17 history)
friend_unread-run_example = friend_unread-run 5 6 17 history (ground arith) (ground arith)

msg_count-run_example : msg_count 5 6 (run history) ≡ to_u32 (sent_count 5 6 history)
msg_count-run_example = msg_count-run 5 6 history (ground arith) (ground arith)

friend_unread-increase_example :
    get_user_friend_unread_count 5 6 17 (increase_user_unread_msg_count 5 6 (run history)) ≡ (
      if 5 == 5 && 6 == 6
      then to_u32 (get_user_friend_unread_count 5 6 17 (run history) + 1)
      else get_user_friend_unread_count 5 6 17 (run history))
friend_unread-increase_example =
    friend_unread-increase 5 6 5 6 17 (run history) (ground arith) (ground arith)

friend_unread-clear_example :
    get_user_friend_unread_count 5 6 18 (clear_user_unread_item_count 5 6 17 (run history)).1 ≡ (
      if (5 == 5 && 6 == 6) && same_slot 17 18
      then 0
      else get_user_friend_unread_count 5 6 18 (run history))
friend_unread-clear_example =
    friend_unread-clear 5 6 17 5 6 18 (run history) (run-UnreadIsSorted history) (ground arith)
      (ground arith)

group_count-run_example : get_user_group_count 5 17 9 (run history) ≡ empty_item 5 9
group_count-run_example = group_count-run 5 17 9 history

-- A user that has read 40 of the 300 messages of group 9.
abbrev a_group : GroupCounterInfo
a_group = record {
  group_total_count = 300;
  ios = (5, record { read_count = 40; last_id = 77 }) ∷ [];
  android = [];
  other = [];
}

abbrev with_group : CacheManager
with_group = record new_cache { group_counter_instance = (9, a_group) ∷ [] }

no_group_17 : get_group_total_count 17 with_group ≡ 0
unfolding get_group_total_count find
no_group_17 = refl

nothing_at_9 : value_at (find 9 []) ≡ 0
unfolding find
nothing_at_9 = refl

group_unreads_swapped_example : value_at (find 9 (group_unreads 5 17 (9 ∷ []) with_group [])) ≡ 0
group_unreads_swapped_example =
    group_unreads_swapped 5 17 9 (9 ∷ []) with_group [] no_group_17 nothing_at_9

abbrev an_entry : UserUnreadCount
an_entry = record { ios = (6, 2) ∷ (7, 1) ∷ []; android = (6, 3) ∷ []; other = [] }

abbrev one_user : CacheManager
one_user = record new_cache { unread_instance = (5, an_entry) ∷ [] }

an_entry-IsSorted : EntryIsSorted an_entry
an_entry-IsSorted = record { ios = (ground arith, tt); android = tt; other = tt }

one_user-UnreadIsSorted : UnreadIsSorted one_user
unfolding find
one_user-UnreadIsSorted = record { entries = λ k u e. ground (arith, an_entry-IsSorted) }

one_user-found : find 5 one_user.unread_instance ≡ some an_entry
unfolding find
one_user-found = refl

abbrev empty_counter : Counter
empty_counter = record { user_id = 0; unread_count = []; msg_count = [] }

unread_report_example : get_unread_msg_count 5 17 empty_counter one_user ≡ (
  true,
  record empty_counter {
    user_id = 5;
    unread_count = take 300 (get_unread_count_by_client_type 17 an_entry);
  },
)
unread_report_example =
    unread_report 5 17 empty_counter one_user an_entry one_user-UnreadIsSorted (ground arith)
      one_user-found refl
