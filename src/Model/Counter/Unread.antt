-- ===== src/Model/Counter/Unread.antt =====
-- The unread counts of users: what each operation does to them, the invariant of the maps, and the
-- counts after any history of operations.
use zattd.Base.{
  ℕ, ◌+◌, ◌≡◌, ◌≢◌, refl, inl, inr, Bool, true, false, not, ◌&&◌, ◌||◌, Option, none, some,
  if◌then◌else◌, ◌==◌, to_u32, arith, Option-cases,
}
use zattd.Base.StdMap.{
  find, put, erase, IsSorted, find-put, find-erase, put-IsSorted, erase-IsSorted,
}
use zattd.Model.Counter.Cache.{
  CacheManager, UserUnreadCount, get_unread_count_by_client_type, set_unread_count_by_client_type,
  value_at, bump, increased,
}
use zattd.Model.Counter.Manager.{
  increase_user_unread_msg_count, clear_user_unread_item_count, get_user_friend_unread_count,
}

-- Which of the three maps a client type selects.
pub data Slot : Type 0 where
  ios android other : Slot

unfoldable pub slot : ℕ → Slot
slot client_type = if client_type == 17 then ios else if client_type == 18 then android else other

unfoldable pub same_slot : ℕ → ℕ → Bool
unfolding slot
same_slot a b = elim (slot a) [
  | ios ↦ elim (slot b) [ ios ↦ true | _ ↦ false ]
  | android ↦ elim (slot b) [ android ↦ true | _ ↦ false ]
  | other ↦ elim (slot b) [ other ↦ true | _ ↦ false ]
]

-- The count that an entry, if there is one, holds for a friend.
entry_count : Option UserUnreadCount → ℕ → ℕ → ℕ
entry_count none friend client_type = 0
entry_count (some u) friend client_type =
    value_at (find friend (get_unread_count_by_client_type client_type u))

friend_unread-entry :
    (user friend client_type : ℕ) (c : CacheManager)
    → user ≢ 0
    → friend ≢ 0
    → get_user_friend_unread_count user friend client_type c
      ≡ entry_count (find user c.unread_instance) friend client_type
unfolding get_user_friend_unread_count entry_count
friend_unread-entry user friend client_type c hu hf = ground arith

entry_count-increased :
    (e : Option UserUnreadCount) (to friend client_type : ℕ)
    → entry_count (some (increased to e)) friend client_type ≡ (
        if to == friend
        then to_u32 (entry_count e friend client_type + 1)
        else entry_count e friend client_type)
unfolding entry_count increased get_unread_count_by_client_type find put bump
entry_count-increased none to friend client_type = ground arith
entry_count-increased (some u) to friend client_type = ground (
  arith,
  find-put to friend (to_u32 (value_at (find to u.ios) + 1)) u.ios,
  find-put to friend (to_u32 (value_at (find to u.android) + 1)) u.android,
  find-put to friend (to_u32 (value_at (find to u.other) + 1)) u.other,
)

-- IncreaseUserUnreadMsgCount(from, to) adds one, modulo 2^32, to the count of that pair for every
-- client type, and changes no other count of ids that are not 0.
pub friend_unread-increase :
    (from to user friend client_type : ℕ) (c : CacheManager)
    → user ≢ 0
    → friend ≢ 0
    → get_user_friend_unread_count user friend client_type
        (increase_user_unread_msg_count from to c)
      ≡ (if from == user && to == friend
          then to_u32 (get_user_friend_unread_count user friend client_type c + 1)
          else get_user_friend_unread_count user friend client_type c)
unfolding increase_user_unread_msg_count
friend_unread-increase from to user friend client_type c hu hf = ground (
  arith,
  friend_unread-entry user friend client_type c hu hf,
  friend_unread-entry user friend client_type (increase_user_unread_msg_count from to c) hu hf,
  find-put from user (increased to (find from c.unread_instance)) c.unread_instance,
  entry_count-increased (find from c.unread_instance) to friend client_type,
)

-- The maps of an entry ascend.
pub record EntryIsSorted (u : UserUnreadCount) : Type 0 where
  pub ios : IsSorted u.ios
  pub android : IsSorted u.android
  pub other : IsSorted u.other

entry_count-erase :
    (u : UserUnreadCount) (friend client_type friend' client_type' : ℕ)
    → EntryIsSorted u
    → entry_count
        (some (
          set_unread_count_by_client_type client_type
            (erase friend (get_unread_count_by_client_type client_type u))
            u))
        friend'
        client_type'
      ≡ (if friend == friend' && same_slot client_type client_type'
          then 0
          else entry_count (some u) friend' client_type')
unfolding entry_count get_unread_count_by_client_type set_unread_count_by_client_type same_slot
entry_count-erase u friend client_type friend' client_type' s = ground (
  arith,
  find-erase friend friend' u.ios s.ios,
  find-erase friend friend' u.android s.android,
  find-erase friend friend' u.other s.other,
)

-- Every entry of the unread counters ascends.
pub record UnreadIsSorted (c : CacheManager) : Type 0 where
  pub entries : (k : ℕ) (u : UserUnreadCount) → find k c.unread_instance ≡ some u → EntryIsSorted u

-- In a cache whose maps ascend, ClearUserUnreadItemCount(user, friend, client type) sets the count
-- of that pair to 0 for the client types that share the map, and leaves every other count of ids
-- that are not 0 as it was.
pub friend_unread-clear :
    (user friend client_type user' friend' client_type' : ℕ) (c : CacheManager)
    → UnreadIsSorted c
    → user' ≢ 0
    → friend' ≢ 0
    → get_user_friend_unread_count user' friend' client_type'
        (clear_user_unread_item_count user friend client_type c).1
      ≡ (if (user == user' && friend == friend') && same_slot client_type client_type'
          then 0
          else get_user_friend_unread_count user' friend' client_type' c)
unfolding clear_user_unread_item_count entry_count
friend_unread-clear user friend client_type user' friend' client_type' c s hu hf =
    elim (Option-cases (find user c.unread_instance)) [
      | inl absent ↦ ground (
        arith,
        friend_unread-entry user' friend' client_type' c hu hf,
        friend_unread-entry user' friend' client_type'
            (clear_user_unread_item_count user friend client_type c).1 hu hf,
      )
      | inr (u, present) ↦
          let left : UserUnreadCount =
            set_unread_count_by_client_type client_type
              (erase friend (get_unread_count_by_client_type client_type u)) u in
          ground (
            arith,
            friend_unread-entry user' friend' client_type' c hu hf,
            friend_unread-entry user' friend' client_type'
                (clear_user_unread_item_count user friend client_type c).1 hu hf,
            find-put user user' left c.unread_instance,
            entry_count-erase u friend client_type friend' client_type' (s.entries user u present),
          )
    ]

-- ClearUserUnreadItemCount returns true exactly if both ids are not 0 and the first user has an
-- entry.
pub clear_succeeds :
    (user friend client_type : ℕ) (c : CacheManager)
    → (clear_user_unread_item_count user friend client_type c).0
      ≡ not (user == 0 || friend == 0)
        && (elim (find user c.unread_instance) [ none ↦ false | some u ↦ true ])
unfolding clear_user_unread_item_count
clear_succeeds user friend client_type c = ground arith

increased-EntryIsSorted :
    (to : ℕ) (e : Option UserUnreadCount)
    → ((u : UserUnreadCount) → e ≡ some u → EntryIsSorted u)
    → EntryIsSorted (increased to e)
unfolding increased put bump
increased-EntryIsSorted to none s = record { ios = tt; android = tt; other = tt }
increased-EntryIsSorted to (some u) s =
    let e = s u refl in
    record {
      ios = put-IsSorted to _ u.ios e.ios;
      android = put-IsSorted to _ u.android e.android;
      other = put-IsSorted to _ u.other e.other;
    }

pub increase-UnreadIsSorted :
    (from to : ℕ) (c : CacheManager)
    → UnreadIsSorted c
    → UnreadIsSorted (increase_user_unread_msg_count from to c)
unfolding increase_user_unread_msg_count
increase-UnreadIsSorted from to c s = record {
  entries = λ k u e. ground (
    arith,
    s.entries k u,
    find-put from k (increased to (find from c.unread_instance)) c.unread_instance,
    increased-EntryIsSorted to (find from c.unread_instance) (s.entries from),
  );
}

erased-EntryIsSorted :
    (friend client_type : ℕ) (u : UserUnreadCount)
    → EntryIsSorted u
    → EntryIsSorted (
        set_unread_count_by_client_type client_type
          (erase friend (get_unread_count_by_client_type client_type u))
          u)
unfolding set_unread_count_by_client_type get_unread_count_by_client_type
erased-EntryIsSorted friend client_type u s = ground (
  arith,
  erase-IsSorted friend u.ios s.ios,
  erase-IsSorted friend u.android s.android,
  erase-IsSorted friend u.other s.other,
)

pub clear-UnreadIsSorted :
    (user friend client_type : ℕ) (c : CacheManager)
    → UnreadIsSorted c
    → UnreadIsSorted (clear_user_unread_item_count user friend client_type c).1
unfolding clear_user_unread_item_count
clear-UnreadIsSorted user friend client_type c s =
    elim (Option-cases (find user c.unread_instance)) [
      | inl absent ↦ record { entries = λ k u e. ground (arith, s.entries k u) }
      | inr (v, present) ↦
          let left : UserUnreadCount =
            set_unread_count_by_client_type client_type
              (erase friend (get_unread_count_by_client_type client_type v)) v in
          record {
            entries = λ k u e. ground (
              arith,
              s.entries k u,
              find-put user k left c.unread_instance,
              erased-EntryIsSorted friend client_type v (s.entries user v present),
            );
          }
    ]
