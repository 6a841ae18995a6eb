-- ===== src/Server/SendMessage.antt =====
-- zaresd/message_handler/msg_data_handler.cc: a user sends a message. GetHighInt16ByInt32 belongs to
-- another library and is a parameter.
use zattd.Base.{
  ℕ, ◌+◌, ◌≡◌, ◌≢◌, not, Bool, true, false, ◌&&◌, ◌||◌, if◌then◌else◌, ◌==◌, ltb, is_empty, length,
  to_u32, arith,
}
use zattd.Proto.MsgData.{MsgData}
use zattd.Proto.MsgData
use zattd.Proto.DbWriteResponse.{DbWriteResponse}
use zattd.Proto.DbWriteResponse
use zattd.Model.Counter.Cache.{CacheManager}
use zattd.Model.Counter.Manager.{get_user_friend_unread_count}
use zattd.Model.Counter.History.{incr_counter_for_new_message, friend_unread-message}
use zattd.Model.Message.Store.{Message, Store}
use zattd.Model.Message.Sending.{
  is_positive, send_im_message, send_audio_message, send_im_group_message, send_im_message-counters,
  send_im_message-accepted,
}

-- The check of the request.
unfoldable pub is_invalid : MsgData → Bool
is_invalid m =
    m.from_user_id == 0
    || m.to_user_id == 0
    || m.msg_type == 0
    || is_empty m.msg_data
    || ((m.msg_type == 1 || m.msg_type == 17) && ltb 1536 (length m.msg_data))
    || ((m.msg_type == 2 || m.msg_type == 18) && ltb 102400 (length m.msg_data))

module _ (get_high_int16_by_int32 : ℕ → ℕ) (S : Store) where
  open S use {World, insert_message}

  unfoldable pub send_checked : ℕ → ℕ → MsgData → CacheManager → World → Bool × CacheManager × World
  unfolding send_im_message
  send_checked now_1 now_2 m c w =
      if m.msg_type == 1
      then send_im_message S now_1 now_2 m.from_user_id m.to_user_id m.msg_type m.msg_data
          m.create_time c w
      else if m.msg_type == 2
      then send_audio_message m.from_user_id m.to_user_id m.msg_data m.create_time c w
      else if m.msg_type == 17 || m.msg_type == 18
      then send_im_group_message m.from_user_id m.to_user_id m.msg_data m.create_time c w
      else (false, c, w)

  -- The response that is sent, made of an object whose uninitialised fields hold `garbage`, and the
  -- counters and the database that are left.
  unfoldable pub execute_msg_data :
      ℕ → ℕ → ℕ → MsgData → CacheManager → World → DbWriteResponse × CacheManager × World
  unfolding is_invalid send_checked
  execute_msg_data garbage now_1 now_2 m c w =
      let made = DbWriteResponse.create garbage in
      let (ok, c', w') = if is_invalid m then (false, c, w) else send_checked now_1 now_2 m c w in
      (
        record made {
          base = record (made.base) { reserved = m.base.reserved };
          request_id = m.request_id;
          result = if ok then 0 else 1;
          request_pdu_type = get_high_int16_by_int32 MsgData.message_type;
          from_id = m.from_user_id;
          to_id = m.to_user_id;
        },
        c',
        w',
      )

  send_checked-counters :
      (now_1 now_2 : ℕ) (m : MsgData) (c : CacheManager) (w : World)
      → let (ok, c', w') = send_checked now_1 now_2 m c w in
        c' ≡ (
          if ok && m.msg_type == 1
          then incr_counter_for_new_message m.from_user_id m.to_user_id c
          else c)
  unfolding send_checked
  send_checked-counters now_1 now_2 m c w = ground (
    arith,
    send_im_message-counters S now_1 now_2 m.from_user_id m.to_user_id m.msg_type m.msg_data
        m.create_time c w,
  )

  execute_msg_data-counters :
      (garbage now_1 now_2 : ℕ) (m : MsgData) (c : CacheManager) (w : World)
      → let (response, c', w') = execute_msg_data garbage now_1 now_2 m c w in
        c' ≡ (
          if response.result == 0 && m.msg_type == 1
          then incr_counter_for_new_message m.from_user_id m.to_user_id c
          else c)
  unfolding execute_msg_data
  execute_msg_data-counters garbage now_1 now_2 m c w =
      ground (arith, send_checked-counters now_1 now_2 m c w)

  -- After the handler of MsgData, the unread count of a user and a friend, whose ids are not 0, on
  -- a client type is one more, modulo 2^32, if the response has result 0, the message is of type 1
  -- and it is from the user to the friend; otherwise it is as before.
  pub execute_msg_data-unread :
      (garbage now_1 now_2 : ℕ) (m : MsgData) (c : CacheManager) (w : World)
      (user friend client_type : ℕ)
      → user ≢ 0
      → friend ≢ 0
      → let (response, c', w') = execute_msg_data garbage now_1 now_2 m c w in
        get_user_friend_unread_count user friend client_type c' ≡ (
          if (response.result == 0 && m.msg_type == 1)
            && (m.from_user_id == user && m.to_user_id == friend)
          then to_u32 (get_user_friend_unread_count user friend client_type c + 1)
          else get_user_friend_unread_count user friend client_type c)
  execute_msg_data-unread garbage now_1 now_2 m c w user friend client_type hu hf = ground (
    arith,
    execute_msg_data-counters garbage now_1 now_2 m c w,
    friend_unread-message m.from_user_id m.to_user_id user friend client_type c hu hf,
  )

  -- For a MsgData whose type is not 1, the handler leaves the counters and the database as they
  -- were, and the result is 0 for a valid message of type 17 or 18 and 1 for any other.
  pub execute_msg_data-other :
      (garbage now_1 now_2 : ℕ) (m : MsgData) (c : CacheManager) (w : World)
      → m.msg_type ≢ 1
      → let (response, c', w') = execute_msg_data garbage now_1 now_2 m c w in
        (response.result
          ≡ (if not (is_invalid m) && (m.msg_type == 17 || m.msg_type == 18) then 0 else 1))
        × (c' ≡ c)
        × (w' ≡ w)
  unfolding execute_msg_data send_checked
  execute_msg_data-other garbage now_1 now_2 m c w h = ground arith

  valid_fields :
      (m : MsgData)
      → is_invalid m ≡ false
      → (m.from_user_id ≢ 0) × (m.to_user_id ≢ 0) × (is_empty m.msg_data ≡ false)
  unfolding is_invalid
  valid_fields m h = (ground arith, ground arith, ground arith)

  valid-sent :
      (accepts : (row : Message) (w : World) → is_positive (insert_message row w).0 ≡ true)
      (garbage now_1 now_2 : ℕ) (m : MsgData) (c : CacheManager) (w : World)
      → is_invalid m ≡ false
      → m.msg_type ≡ 1
      → (execute_msg_data garbage now_1 now_2 m c w).0.result ≡ 0
  unfolding execute_msg_data send_checked
  valid-sent accepts garbage now_1 now_2 m c w hv ht =
      let (hf, hto, hc) = valid_fields m hv in
      ground (
        arith,
        send_im_message-accepted S accepts now_1 now_2 m.from_user_id m.to_user_id m.msg_type
            m.msg_data m.create_time c w hf hto hc,
      )

  -- If the database reports a positive number of rows for every message that is inserted, a
  -- MsgData of type 1 that is valid is answered with result 0, and the unread count of its sender
  -- and its receiver, on any client type, is one more, modulo 2^32.
  pub execute_msg_data-counted :
      (accepts : (row : Message) (w : World) → is_positive (insert_message row w).0 ≡ true)
      (garbage now_1 now_2 : ℕ) (m : MsgData) (c : CacheManager) (w : World) (client_type : ℕ)
      → is_invalid m ≡ false
      → m.msg_type ≡ 1
      → let (response, c', w') = execute_msg_data garbage now_1 now_2 m c w in
        (response.result ≡ 0)
        × (get_user_friend_unread_count m.from_user_id m.to_user_id client_type c'
            ≡ to_u32 (get_user_friend_unread_count m.from_user_id m.to_user_id client_type c + 1))
  execute_msg_data-counted accepts garbage now_1 now_2 m c w client_type hv ht =
      let (hf, hto, hc) = valid_fields m hv in
      let sent = valid-sent accepts garbage now_1 now_2 m c w hv ht in
      (
        sent,
        ground (
          arith,
          sent,
          execute_msg_data-unread garbage now_1 now_2 m c w m.from_user_id m.to_user_id client_type
              hf hto,
        ),
      )
