-- ===== src/Model/Counter/Cache.antt =====
-- CacheManager of zaresd/model/zares/zares_counter_manager_impl.h: the counters in memory. Its lock
-- makes each operation one step. A pointer into a map is modelled by reading the map and writing
-- the changed one back.
use zattd.Base.{ℕ, ◌+◌, Bool, true, [], Option, none, some, if◌then◌else◌, ◌==◌, to_u32}
use zattd.Base.StdMap.{StdMap, find, put}

pub record UserUnreadCount : Type 0 where
  pub ios : StdMap ℕ
  pub android : StdMap ℕ
  pub other : StdMap ℕ

unfoldable pub get_unread_count_by_client_type : ℕ → UserUnreadCount → StdMap ℕ
get_unread_count_by_client_type client_type u =
    if client_type == 17 then u.ios else if client_type == 18 then u.android else u.other

-- A write through the pointer that GetUnreadCountByClientType returns.
unfoldable pub set_unread_count_by_client_type : ℕ → StdMap ℕ → UserUnreadCount → UserUnreadCount
set_unread_count_by_client_type client_type m u =
    if client_type == 17
    then record u { ios = m }
    else if client_type == 18
    then record u { android = m }
    else record u { other = m }

pub record ReadCountAndLastId : Type 0 where
  pub read_count : ℕ
  pub last_id : ℕ

pub record GroupCounterInfo : Type 0 where
  pub group_total_count : ℕ
  pub ios : StdMap ReadCountAndLastId
  pub android : StdMap ReadCountAndLastId
  pub other : StdMap ReadCountAndLastId

unfoldable pub get_read_count_and_last_id_map : ℕ → GroupCounterInfo → StdMap ReadCountAndLastId
get_read_count_and_last_id_map client_type g =
    if client_type == 17 then g.ios else if client_type == 18 then g.android else g.other

unfoldable pub set_read_count_and_last_id_map :
    ℕ → StdMap ReadCountAndLastId → GroupCounterInfo → GroupCounterInfo
set_read_count_and_last_id_map client_type m g =
    if client_type == 17
    then record g { ios = m }
    else if client_type == 18
    then record g { android = m }
    else record g { other = m }

pub record CacheManager : Type 0 where
  pub counter_instance : StdMap (StdMap ℕ)
  pub unread_instance : StdMap UserUnreadCount
  pub group_counter_instance : StdMap GroupCounterInfo

abbrev pub new_cache : CacheManager
new_cache = record { counter_instance = []; unread_instance = []; group_counter_instance = [] }

-- `m[k]`, which is 0 for a key that was not there.
abbrev pub value_at : Option ℕ → ℕ
value_at none = 0
value_at (some n) = n

-- `m[k] += 1`
unfoldable pub bump : ℕ → StdMap ℕ → StdMap ℕ
bump k m = put k (to_u32 (value_at (find k m) + 1)) m

unfoldable pub incr_inner : ℕ → StdMap ℕ → StdMap ℕ
incr_inner to_user_id m = elim (find to_user_id m) [
  | none ↦ put to_user_id 1 m
  | some n ↦ put to_user_id (to_u32 (n + 1)) m
]

unfoldable pub cache_incr_user_msg_count : ℕ → ℕ → CacheManager → CacheManager
unfolding incr_inner
cache_incr_user_msg_count from_user_id to_user_id c = elim (find from_user_id c.counter_instance) [
  | none ↦ record c { counter_instance = put from_user_id (put to_user_id 1 []) c.counter_instance }
  | some m ↦ record c {
    counter_instance = put from_user_id (incr_inner to_user_id m) c.counter_instance;
  }
]

-- The entry of `from_user_id` after IncreaseUserUnreadMsgCount.
unfoldable pub increased : ℕ → Option UserUnreadCount → UserUnreadCount
unfolding bump
increased to_user_id (some u) = record {
  ios = bump to_user_id u.ios;
  android = bump to_user_id u.android;
  other = bump to_user_id u.other;
}
increased to_user_id none = record {
  ios = put to_user_id 1 [];
  android = put to_user_id 1 [];
  other = put to_user_id 1 [];
}

unfoldable pub cache_increase_user_unread_msg_count : ℕ → ℕ → CacheManager → CacheManager
unfolding increased
cache_increase_user_unread_msg_count from_user_id to_user_id c = record c {
  unread_instance =
      put from_user_id (increased to_user_id (find from_user_id c.unread_instance))
        c.unread_instance;
}

unfoldable pub find_unread_count : ℕ → ℕ → CacheManager → Option (StdMap ℕ)
find_unread_count user_id client_type c = elim (find user_id c.unread_instance) [
  | some u ↦ some (get_unread_count_by_client_type client_type u)
  | none ↦ none
]

-- The body is commented out in the source.
unfoldable pub cache_incr_group_msg_count : ℕ → ℕ → CacheManager → Bool × CacheManager
cache_incr_group_msg_count group_id last_message_id c = (true, c)

unfoldable pub get_group_total_count : ℕ → CacheManager → ℕ
get_group_total_count group_id c = elim (find group_id c.group_counter_instance) [
  | some g ↦ g.group_total_count
  | none ↦ 0
]

unfoldable pub find_counter_and_last_ids : ℕ → ℕ → ℕ → CacheManager → Option ReadCountAndLastId
find_counter_and_last_ids user_id group_id client_type c =
    elim (find group_id c.group_counter_instance) [
      | none ↦ none
      | some g ↦ find user_id (get_read_count_and_last_id_map client_type g)
    ]
