-- ===== src/Model/Counter/Manager.antt =====
-- ZAresCounterManagerImpl of zaresd/model/zares/zares_counter_manager_impl.cc. A method takes the
-- cache and returns what it returns with the cache that it leaves.
use zattd.Base.{
  ℕ, ◌-◌, Bool, true, false, ◌||◌, List, [], ◌∷◌, Option, none, some, if◌then◌else◌, ◌==◌, ltb,
  is_empty, length, sub_u32,
}
use zattd.Base.StdMap.{StdMap, find, put, insert, erase}
use zattd.Model.Counter.Cache.{
  CacheManager, ReadCountAndLastId, GroupCounterInfo, UserUnreadCount,
  get_unread_count_by_client_type, set_unread_count_by_client_type, get_read_count_and_last_id_map,
  set_read_count_and_last_id_map, cache_incr_user_msg_count, cache_increase_user_unread_msg_count,
  find_unread_count, get_group_total_count, find_counter_and_last_ids,
}

pub record Counter : Type 0 where
  pub user_id : ℕ
  pub unread_count : StdMap ℕ
  pub msg_count : StdMap ℕ

pub record GroupCounterItem : Type 0 where
  pub user_id : ℕ
  pub group_id : ℕ
  pub group_total_count : ℕ
  pub user_unread_count : ℕ
  pub last_message_id : ℕ

abbrev pub group_unread_max_counter : ℕ
group_unread_max_counter = 150

unfoldable pub incr_user_msg_count : ℕ → ℕ → CacheManager → CacheManager
unfolding cache_incr_user_msg_count
incr_user_msg_count from_user_id to_user_id c =
    if from_user_id == 0 || to_user_id == 0
    then c
    else cache_incr_user_msg_count from_user_id to_user_id c

unfoldable pub increase_user_unread_msg_count : ℕ → ℕ → CacheManager → CacheManager
unfolding cache_increase_user_unread_msg_count
increase_user_unread_msg_count from_user_id to_user_id c =
    if from_user_id == 0 || to_user_id == 0
    then c
    else cache_increase_user_unread_msg_count from_user_id to_user_id c

-- The loop of GetUnreadMsgCount: at most `room` entries, in order.
unfoldable pub copy_counts : ℕ → StdMap ℕ → StdMap ℕ → StdMap ℕ
copy_counts room [] out = out
copy_counts room ((k, v) ∷ m) out =
    let rest = copy_counts (room - 1) m (insert k v out) in if ltb 0 room then rest else out

-- The first part tells whether a pointer to the counter is returned, or NULL.
unfoldable pub get_unread_msg_count : ℕ → ℕ → Counter → CacheManager → Bool × Counter
unfolding find_unread_count copy_counts
get_unread_msg_count user_id client_type counter c =
    if user_id == 0 then (false, counter) else (elim (find_unread_count user_id client_type c) [
      | none ↦ (false, counter)
      | some m ↦ (
        true,
        record counter { user_id = user_id; unread_count = copy_counts 300 m counter.unread_count },
      )
    ])

erase_unread : ℕ → ℕ → ℕ → Option UserUnreadCount → CacheManager → Bool × CacheManager
erase_unread user_id friend_user_id client_type none c = (false, c)
erase_unread user_id friend_user_id client_type (some u) c =
    let m = erase friend_user_id (get_unread_count_by_client_type client_type u) in
    (
      true,
      record c {
        unread_instance =
            put user_id (set_unread_count_by_client_type client_type m u) c.unread_instance;
      },
    )

unfoldable pub clear_user_unread_item_count : ℕ → ℕ → ℕ → CacheManager → Bool × CacheManager
unfolding erase_unread
clear_user_unread_item_count user_id friend_user_id client_type c =
    if user_id == 0 || friend_user_id == 0
    then (false, c)
    else erase_unread user_id friend_user_id client_type (find user_id c.unread_instance) c

count_at : Option ℕ → ℕ
count_at none = 0
count_at (some n) = n

-- `return false;` for a user with no entry returns 0.
unfoldable pub get_user_friend_unread_count : ℕ → ℕ → ℕ → CacheManager → ℕ
unfolding find_unread_count count_at
get_user_friend_unread_count user_id friend_user_id client_type c =
    if user_id == 0 || friend_user_id == 0
    then 0
    else (elim (find_unread_count user_id client_type c) [
      | none ↦ 0
      | some m ↦ count_at (find friend_user_id m)
    ])

unread_of : ℕ → Option ReadCountAndLastId → GroupCounterItem → GroupCounterItem
unread_of total_count none item = item
unread_of total_count (some r) item =
    let unread_count = sub_u32 total_count r.read_count in
    record item {
      last_message_id = r.last_id;
      user_unread_count =
          if ltb group_unread_max_counter unread_count
          then group_unread_max_counter
          else unread_count;
    }

-- The parameters in the order of the definition; the class declares (user_id, group_id,
-- client_type), and all are uint32.
unfoldable pub get_user_group_count : ℕ → ℕ → ℕ → CacheManager → GroupCounterItem
unfolding unread_of get_group_total_count find_counter_and_last_ids
get_user_group_count user_id client_type group_id c =
    let item : GroupCounterItem = record {
      user_id = user_id;
      group_id = group_id;
      group_total_count = 0;
      user_unread_count = 0;
      last_message_id = 0;
    } in
    let total_count = get_group_total_count group_id c in
    if user_id == 0 || group_id == 0
    then item
    else if total_count == 0
    then item
    else unread_of total_count (find_counter_and_last_ids user_id group_id client_type c)
        (record item { group_total_count = total_count })

-- The loop of GetUserGroupUnreadCount, which passes its arguments as the class declares them.
unfoldable pub group_unreads : ℕ → ℕ → List ℕ → CacheManager → StdMap ℕ → StdMap ℕ
group_unreads user_id client_type [] c unreads = unreads
group_unreads user_id client_type (group_id ∷ group_ids) c unreads =
    group_unreads user_id client_type group_ids c (
      insert group_id (get_user_group_count user_id group_id client_type c).user_unread_count
        unreads)

unfoldable pub get_user_group_unread_count :
    ℕ → List ℕ → ℕ → Option (StdMap ℕ) → CacheManager → ℕ × Option (StdMap ℕ)
unfolding group_unreads
get_user_group_unread_count user_id group_ids client_type none c = (0, none)
get_user_group_unread_count user_id group_ids client_type (some unreads) c =
    let out = group_unreads user_id client_type group_ids c unreads in
    if user_id == 0 || is_empty group_ids then (0, some unreads) else (length out, some out)

unfoldable pub delete_user_readed_dialog_messages : ℕ → ℕ → ℕ → CacheManager → Bool × CacheManager
delete_user_readed_dialog_messages user_id friend_user_id client_type c = (true, c)

reset_group : ℕ → ℕ → ℕ → Option GroupCounterInfo → CacheManager → CacheManager
reset_group user_id group_id client_type none c = c
reset_group user_id group_id client_type (some g) c =
    let m = get_read_count_and_last_id_map client_type g in
    elim (find user_id m) [
      | none ↦ c
      | some r ↦ record c {
        group_counter_instance =
            put group_id
              (set_read_count_and_last_id_map client_type
                (put user_id (record { read_count = 0; last_id = 0 }) m) g)
              c.group_counter_instance;
      }
    ]

unfoldable pub clear_user_group_counter : ℕ → ℕ → ℕ → CacheManager → Bool × CacheManager
unfolding reset_group
clear_user_group_counter user_id group_id client_type c =
    (true, reset_group user_id group_id client_type (find group_id c.group_counter_instance) c)
