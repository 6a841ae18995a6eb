-- ===== src/Model/Counter/History.antt =====
-- The counters after any history of operations on them, against what the history says.
use zattd.Base.{
  ℕ, ◌+◌, ◌≡◌, ◌≢◌, ◌∙◌, refl, inl, inr, ◌&&◌, List, [], ◌∷◌, Option, none, some, if◌then◌else◌,
  ◌==◌, to_u32, arith, Option-cases,
}
use zattd.Base.StdMap.{StdMap, find, put, find-put}
use zattd.Model.Counter.Cache.{CacheManager, incr_inner, value_at, new_cache}
use zattd.Model.Counter.Manager.{
  incr_user_msg_count, increase_user_unread_msg_count, clear_user_unread_item_count,
  get_user_friend_unread_count, delete_user_readed_dialog_messages, clear_user_group_counter,
}
use zattd.Model.Counter.Unread.{
  same_slot, friend_unread-increase, friend_unread-clear, UnreadIsSorted, increase-UnreadIsSorted,
  clear-UnreadIsSorted,
}

-- ZAresMessageManagerImpl::IncrCounterForNewMessage
unfoldable pub incr_counter_for_new_message : ℕ → ℕ → CacheManager → CacheManager
incr_counter_for_new_message from_user_id to_user_id c =
    increase_user_unread_msg_count from_user_id to_user_id
      (incr_user_msg_count from_user_id to_user_id c)

-- The calls that write to the counters.
pub data Op : Type 0 where
  sent : ℕ → ℕ → Op
  was_read deleted group_cleared : ℕ → ℕ → ℕ → Op

unfoldable pub step : Op → CacheManager → CacheManager
step (sent from to) c = incr_counter_for_new_message from to c
step (was_read user friend client_type) c =
    (clear_user_unread_item_count user friend client_type c).1
step (deleted user friend client_type) c =
    (delete_user_readed_dialog_messages user friend client_type c).1
step (group_cleared user group client_type) c =
    (clear_user_group_counter user group client_type c).1

-- The latest call stands first.
unfoldable pub run : List Op → CacheManager
unfolding step
run [] = new_cache
run (op ∷ ops) = step op (run ops)

-- The messages that `user` sent to `friend` since the pair was last read on the client type.
pub unread_since : ℕ → ℕ → ℕ → List Op → ℕ
unread_since user friend client_type [] = 0
unread_since user friend client_type (sent from to ∷ ops) =
    let n = unread_since user friend client_type ops in
    if from == user && to == friend then n + 1 else n
unread_since user friend client_type (was_read u f t ∷ ops) =
    let n = unread_since user friend client_type ops in
    if (u == user && f == friend) && same_slot t client_type then 0 else n
unread_since user friend client_type (deleted u f t ∷ ops) =
    unread_since user friend client_type ops
unread_since user friend client_type (group_cleared u g t ∷ ops) =
    unread_since user friend client_type ops

-- All messages from `user` to `friend`.
pub sent_count : ℕ → ℕ → List Op → ℕ
sent_count user friend [] = 0
sent_count user friend (sent from to ∷ ops) =
    let n = sent_count user friend ops in if from == user && to == friend then n + 1 else n
sent_count user friend (was_read u f t ∷ ops) = sent_count user friend ops
sent_count user friend (deleted u f t ∷ ops) = sent_count user friend ops
sent_count user friend (group_cleared u g t ∷ ops) = sent_count user friend ops

unread_instance-incr :
    (from to : ℕ) (c : CacheManager)
    → (incr_user_msg_count from to c).unread_instance ≡ c.unread_instance
unfolding incr_user_msg_count
unread_instance-incr from to c = ground arith

unread_instance-group_clear :
    (user group client_type : ℕ) (c : CacheManager)
    → (clear_user_group_counter user group client_type c).1.unread_instance ≡ c.unread_instance
unfolding clear_user_group_counter
unread_instance-group_clear user group client_type c = ground arith

-- The count and the invariant look at the unread counters alone.
same_friend_unread :
    (user friend client_type : ℕ) (a b : CacheManager)
    → a.unread_instance ≡ b.unread_instance
    → get_user_friend_unread_count user friend client_type a
      ≡ get_user_friend_unread_count user friend client_type b
unfolding get_user_friend_unread_count
same_friend_unread user friend client_type a b e = cc

same_UnreadIsSorted :
    (a b : CacheManager)
    → a.unread_instance ≡ b.unread_instance
    → UnreadIsSorted b
    → UnreadIsSorted a
same_UnreadIsSorted a b e s = record { entries = λ k u h. s.entries k u (ground arith) }

friend_unread-new :
    (user friend client_type : ℕ)
    → get_user_friend_unread_count user friend client_type new_cache ≡ 0
unfolding get_user_friend_unread_count find
friend_unread-new user friend client_type = ground arith

-- IncrCounterForNewMessage changes the unread counts as IncreaseUserUnreadMsgCount does.
pub friend_unread-message :
    (from to user friend client_type : ℕ) (c : CacheManager)
    → user ≢ 0
    → friend ≢ 0
    → get_user_friend_unread_count user friend client_type (incr_counter_for_new_message from to c)
      ≡ (if from == user && to == friend
          then to_u32 (get_user_friend_unread_count user friend client_type c + 1)
          else get_user_friend_unread_count user friend client_type c)
unfolding incr_counter_for_new_message
friend_unread-message from to user friend client_type c hu hf = ground (
  arith,
  friend_unread-increase from to user friend client_type (incr_user_msg_count from to c) hu hf,
  same_friend_unread user friend client_type (incr_user_msg_count from to c) c
      (unread_instance-incr from to c),
)

-- After any history of calls, the maps of unread counts ascend.
pub run-UnreadIsSorted : (ops : List Op) → UnreadIsSorted (run ops)
unfolding run step incr_counter_for_new_message delete_user_readed_dialog_messages find
run-UnreadIsSorted [] = record { entries = λ k u h. cc }
run-UnreadIsSorted (sent from to ∷ ops) =
    increase-UnreadIsSorted from to (incr_user_msg_count from to (run ops)) (
      same_UnreadIsSorted _ (run ops) (unread_instance-incr from to (run ops))
        (run-UnreadIsSorted ops))
run-UnreadIsSorted (was_read u f t ∷ ops) =
    clear-UnreadIsSorted u f t (run ops) (run-UnreadIsSorted ops)
run-UnreadIsSorted (deleted u f t ∷ ops) = run-UnreadIsSorted ops
run-UnreadIsSorted (group_cleared u g t ∷ ops) =
    same_UnreadIsSorted _ (run ops) (unread_instance-group_clear u g t (run ops))
      (run-UnreadIsSorted ops)

-- After any history of calls, GetUserFriendUnreadCount(user, friend, client type), for two ids
-- that are not 0, is the number of messages from user to friend since the pair was last read on a
-- client type that shares its map, modulo 2^32.
pub friend_unread-run :
    (user friend client_type : ℕ) (ops : List Op)
    → user ≢ 0
    → friend ≢ 0
    → get_user_friend_unread_count user friend client_type (run ops)
      ≡ to_u32 (unread_since user friend client_type ops)
unfolding run step delete_user_readed_dialog_messages unread_since
friend_unread-run user friend client_type [] hu hf = friend_unread-new user friend client_type
friend_unread-run user friend client_type (sent from to ∷ ops) hu hf = ground (
  arith,
  friend_unread-run user friend client_type ops hu hf,
  friend_unread-message from to user friend client_type (run ops) hu hf,
)
friend_unread-run user friend client_type (was_read u f t ∷ ops) hu hf = ground (
  arith,
  friend_unread-run user friend client_type ops hu hf,
  friend_unread-clear u f t user friend client_type (run ops) (run-UnreadIsSorted ops) hu hf,
)
friend_unread-run user friend client_type (deleted u f t ∷ ops) hu hf =
    friend_unread-run user friend client_type ops hu hf
friend_unread-run user friend client_type (group_cleared u g t ∷ ops) hu hf =
    same_friend_unread user friend client_type _ (run ops)
      (unread_instance-group_clear u g t (run ops))
    ∙ friend_unread-run user friend client_type ops hu hf

-- What the total counter holds for a pair of users; no code reads it.
inner_count : Option (StdMap ℕ) → ℕ → ℕ
inner_count none to = 0
inner_count (some m) to = value_at (find to m)

unfoldable pub msg_count : ℕ → ℕ → CacheManager → ℕ
unfolding inner_count
msg_count from to c = inner_count (find from c.counter_instance) to

find-incr_inner :
    (to friend : ℕ) (m : StdMap ℕ)
    → value_at (find friend (incr_inner to m))
      ≡ (if to == friend then to_u32 (value_at (find friend m) + 1) else value_at (find friend m))
unfolding incr_inner
find-incr_inner to friend m = elim (Option-cases (find to m)) [
  | inl absent ↦ ground (arith, find-put to friend 1 m)
  | inr (n, present) ↦ ground (arith, find-put to friend (to_u32 (n + 1)) m)
]

msg_count-incr :
    (from to user friend : ℕ) (c : CacheManager)
    → user ≢ 0
    → friend ≢ 0
    → msg_count user friend (incr_user_msg_count from to c) ≡ (
        if from == user && to == friend
        then to_u32 (msg_count user friend c + 1)
        else msg_count user friend c)
unfolding msg_count incr_user_msg_count find
msg_count-incr from to user friend c hf ht = elim (Option-cases (find from c.counter_instance)) [
  | inl absent ↦
      let m : StdMap ℕ = put to 1 [] in
      let one : find friend m ≡ (if to == friend then some 1 else none) = find-put to friend 1 [] in
      ground (arith, find-put from user m c.counter_instance, one)
  | inr (m, present) ↦
      ground (
        arith,
        find-put from user (incr_inner to m) c.counter_instance,
        find-incr_inner to friend m,
      )
]

msg_count-new : (user friend : ℕ) → msg_count user friend new_cache ≡ 0
unfolding msg_count find
msg_count-new user friend = refl

same_msg_count :
    (user friend : ℕ) (a b : CacheManager)
    → a.counter_instance ≡ b.counter_instance
    → msg_count user friend a ≡ msg_count user friend b
unfolding msg_count
same_msg_count user friend a b e = cc

counter_instance-read :
    (user friend client_type : ℕ) (c : CacheManager)
    → (clear_user_unread_item_count user friend client_type c).1.counter_instance
      ≡ c.counter_instance
unfolding clear_user_unread_item_count
counter_instance-read user friend client_type c = ground arith

counter_instance-group_clear :
    (user group client_type : ℕ) (c : CacheManager)
    → (clear_user_group_counter user group client_type c).1.counter_instance ≡ c.counter_instance
unfolding clear_user_group_counter
counter_instance-group_clear user group client_type c = ground arith

counter_instance-increase :
    (from to : ℕ) (c : CacheManager)
    → (increase_user_unread_msg_count from to c).counter_instance ≡ c.counter_instance
unfolding increase_user_unread_msg_count
counter_instance-increase from to c = ground arith

msg_count-message :
    (from to user friend : ℕ) (c : CacheManager)
    → user ≢ 0
    → friend ≢ 0
    → msg_count user friend (incr_counter_for_new_message from to c) ≡ (
        if from == user && to == friend
        then to_u32 (msg_count user friend c + 1)
        else msg_count user friend c)
unfolding incr_counter_for_new_message
msg_count-message from to user friend c hu hf =
    same_msg_count user friend _ _
      (counter_instance-increase from to (incr_user_msg_count from to c))
    ∙ msg_count-incr from to user friend c hu hf

-- After any history of calls, the counter of the messages from one user to another, both ids not
-- 0, holds the number of those that were sent, modulo 2^32.
pub msg_count-run :
    (user friend : ℕ) (ops : List Op)
    → user ≢ 0
    → friend ≢ 0
    → msg_count user friend (run ops) ≡ to_u32 (sent_count user friend ops)
unfolding run step sent_count delete_user_readed_dialog_messages
msg_count-run user friend [] hu hf = msg_count-new user friend
msg_count-run user friend (sent from to ∷ ops) hu hf = ground (
  arith,
  msg_count-run user friend ops hu hf,
  msg_count-message from to user friend (run ops) hu hf,
)
msg_count-run user friend (was_read u f t ∷ ops) hu hf =
    same_msg_count user friend _ (run ops) (counter_instance-read u f t (run ops))
    ∙ msg_count-run user friend ops hu hf
msg_count-run user friend (deleted u f t ∷ ops) hu hf = msg_count-run user friend ops hu hf
msg_count-run user friend (group_cleared u g t ∷ ops) hu hf =
    same_msg_count user friend _ (run ops) (counter_instance-group_clear u g t (run ops))
    ∙ msg_count-run user friend ops hu hf
