-- ===== src/Server/ReadAck.antt =====
-- zaresd/message_handler/msg_read_ack_handler.cc: a user has read the messages of a friend.
-- GetHighInt16ByInt32 belongs to another library and is a parameter.
use zattd.Base.{ℕ, ◌≡◌, ◌≢◌, refl, true, none, some, if◌then◌else◌, arith}
use zattd.Base.StdMap.{find}
use zattd.Proto.MsgReadAck.{MsgReadAck}
use zattd.Proto.MsgReadAck
use zattd.Proto.DbWriteResponse.{DbWriteResponse}
use zattd.Proto.DbWriteResponse
use zattd.Model.Counter.Cache.{CacheManager}
use zattd.Model.Counter.Manager.{
  clear_user_unread_item_count, delete_user_readed_dialog_messages, get_user_friend_unread_count,
}
use zattd.Model.Counter.Unread.{
  UnreadIsSorted, same_slot, slot, friend_unread-clear, clear_succeeds,
}

module _ (get_high_int16_by_int32 : ℕ → ℕ) where
  -- The response that is sent, made of an object whose uninitialised fields hold `garbage`, and the
  -- counters that are left.
  unfoldable pub execute_msg_read_ack :
      ℕ → MsgReadAck → CacheManager → DbWriteResponse × CacheManager
  execute_msg_read_ack garbage request c =
      let made = DbWriteResponse.create garbage in
      let (ok, c1) =
        clear_user_unread_item_count request.from_user_id request.to_user_id request.client_type
          c in
      let (deleted, c2) =
        delete_user_readed_dialog_messages request.from_user_id request.to_user_id
          request.client_type c1 in
      (
        record made {
          base = record (made.base) { reserved = request.base.reserved };
          request_id = request.request_id;
          result = if ok then 0 else 1;
          request_pdu_type = get_high_int16_by_int32 MsgReadAck.message_type;
          from_id = request.from_user_id;
          to_id = request.to_user_id;
        },
        c2,
      )

  same_slot_refl : (t : ℕ) → same_slot t t ≡ true
  unfolding same_slot slot
  same_slot_refl t = ground arith

  -- In a cache whose maps ascend, the handler of MsgReadAck, for two ids that are not 0, leaves no
  -- unread message for the pair on the client type; its response has result 0 exactly if the user
  -- has an entry, and the id of the request.
  pub execute_msg_read_ack_lem :
      (garbage : ℕ) (request : MsgReadAck) (c : CacheManager)
      → UnreadIsSorted c
      → request.from_user_id ≢ 0
      → request.to_user_id ≢ 0
      → let (response, c') = execute_msg_read_ack garbage request c in
        (get_user_friend_unread_count request.from_user_id request.to_user_id request.client_type c'
          ≡ 0)
        × (response.result
            ≡ (elim (find request.from_user_id c.unread_instance) [ none ↦ 1 | some u ↦ 0 ]))
        × (response.request_id ≡ request.request_id)
  unfolding execute_msg_read_ack delete_user_readed_dialog_messages
  execute_msg_read_ack_lem garbage request c s hf ht = (
    ground (
      arith,
      friend_unread-clear request.from_user_id request.to_user_id request.client_type
          request.from_user_id request.to_user_id request.client_type c s hf ht,
      same_slot_refl request.client_type,
    ),
    ground (arith, clear_succeeds request.from_user_id request.to_user_id request.client_type c),
    refl,
  )
