-- ===== src/Model/Message/Sending.antt =====
-- The methods of ZAresMessageManagerImpl that send, of
-- zaresd/model/zares/zares_message_manager_impl.cc. A method takes the counters and the database and
-- returns whether it succeeds with what it leaves.
use zattd.Base.{
  ℕ, ◌/◌, ◌≡◌, ◌≢◌, Bool, true, false, ◌&&◌, ◌||◌, List, if◌then◌else◌, ◌==◌, ltb, is_empty, to_u32,
  i32_limit, arith,
}
use zattd.Model.Counter.Cache.{CacheManager}
use zattd.Model.Counter.History.{incr_counter_for_new_message}
use zattd.Model.Message.Store.{Message, Store}
use zattd.Model.Message.Relationship.{
  invalid_id, get_relate_id, check_and_update_relation, add_friendship,
}

-- `> 0` for an int that is given by its 32 bits.
abbrev pub is_positive : ℕ → Bool
is_positive n = ltb 0 n && ltb n i32_limit

abbrev pub send_audio_message :
    {W : Type 0} → ℕ → ℕ → List ℕ → ℕ → CacheManager → W → Bool × CacheManager × W
send_audio_message from_user_id to_user_id content time c w = (false, c, w)

abbrev pub send_im_group_message :
    {W : Type 0} → ℕ → ℕ → List ℕ → ℕ → CacheManager → W → Bool × CacheManager × W
send_im_group_message user_id to_group_id content time c w = (true, c, w)

-- The row for a message.
unfoldable pub message_row : ℕ → ℕ → ℕ → ℕ → List ℕ → ℕ → Message
message_row now from_user_id to_user_id type content relate_id =
    let ctime = to_u32 (now / 1000) in
    record {
      relate_id = relate_id;
      from_user_id = from_user_id;
      to_user_id = to_user_id;
      content = content;
      type = type;
      created = ctime;
      updated = ctime;
    }

module _ (S : Store) where
  open S use {World, insert_message}

  -- The relation that a message is filed under, which is made if there is none.
  unfoldable pub relate_for_message : ℕ → ℕ → ℕ → World → ℕ × World
  relate_for_message now from_user_id to_user_id w =
      let (updated, w1) = check_and_update_relation S from_user_id to_user_id w in
      let relate_id = get_relate_id S from_user_id to_user_id w1 in
      if relate_id == invalid_id
      then add_friendship S now from_user_id to_user_id w1
      else (relate_id, w1)

  -- The two times that NowMSTime() returns, for the relation and for the message.
  unfoldable pub send_im_message :
      ℕ → ℕ → ℕ → ℕ → ℕ → List ℕ → ℕ → CacheManager → World → Bool × CacheManager × World
  unfolding relate_for_message message_row
  send_im_message now_1 now_2 from_user_id to_user_id type content time c w =
      let (relate_id, w1) = relate_for_message now_1 from_user_id to_user_id w in
      let row = message_row now_2 from_user_id to_user_id type content relate_id in
      let (count, w2) = insert_message row w1 in
      if from_user_id == 0 || to_user_id == 0 || is_empty content
      then (false, c, w)
      else if is_positive count
      then (true, incr_counter_for_new_message from_user_id to_user_id c, w2)
      else (false, c, w2)

  -- The counters change exactly if the message is sent.
  pub send_im_message-counters :
      (now_1 now_2 from to type : ℕ) (content : List ℕ) (time : ℕ) (c : CacheManager) (w : World)
      → let (ok, c', w') = send_im_message now_1 now_2 from to type content time c w in
        c' ≡ (if ok then incr_counter_for_new_message from to c else c)
  unfolding send_im_message
  send_im_message-counters now_1 now_2 from to type content time c w = ground arith

  pub send_im_message-accepted :
      (accepts : (row : Message) (w : World) → is_positive (insert_message row w).0 ≡ true)
      (now_1 now_2 from to type : ℕ) (content : List ℕ) (time : ℕ) (c : CacheManager) (w : World)
      → from ≢ 0
      → to ≢ 0
      → is_empty content ≡ false
      → (send_im_message now_1 now_2 from to type content time c w).0 ≡ true
  unfolding send_im_message
  send_im_message-accepted accepts now_1 now_2 from to type content time c w hf ht hc =
      let (relate_id, w1) = relate_for_message now_1 from to w in
      ground (arith, accepts (message_row now_2 from to type content relate_id) w1)
