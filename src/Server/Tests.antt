-- ===== src/Server/Tests.antt =====
-- The theorems on the dispatch and the handlers at concrete messages.
use zattd.Base.{
  ◌/◌, ◌≡◌, arith, refl, [], ◌∷◌, none, some, if◌then◌else◌, ◌==◌, ◌&&◌, pos, int_eq, signed32,
}
use zattd.Proto.MessageTypes.{
  message_group_history_msg_request, message_msg_data, message_heartbeat,
}
use zattd.Proto.Message.{MessageClass}
use zattd.Server.Dispatch.{
  create_message, dispatch_message_handler, on_data_received, sent_back, posted, dropped,
  created_dispatched, on_data_received_lem, expected_handler, message_factories, fill,
}
use zattd.Base.StdMap.{find, put}
use zattd.Wire.Stream.{ByteStream}
use zattd.Wire.Bytes.{bytes}
use zattd.Proto.BasePdu.{attach_null, attach_db}
use zattd.Proto.GroupChangeMemberRequest.{GroupChangeMemberRequest, create, parse_from_byte_stream}
use zattd.Proto.MsgReadAck.{MsgReadAck}
use zattd.Model.Counter.Manager.{get_user_friend_unread_count}
use zattd.Model.Counter.History.{run, sent, run-UnreadIsSorted}
use zattd.Model.Counter.Cache.{CacheManager}
use zattd.Model.Group.Example.{answer, database, members, group_9}
use zattd.Model.Group.Database.{elem, set_status}
use zattd.Model.Group.Members.{joined}
use zattd.Model.Group.Manager.{get_group_info}
use zattd.Server.ReadAck.{execute_msg_read_ack, execute_msg_read_ack_lem}
use zattd.Server.GroupHandlers.{
  execute_group_change_member, change_member-parsed, change_member-status, may_quit,
}

msg_data-created : create_message message_msg_data ≡ some MessageClass.msg_data
unfolding create_message message_factories fill find put
msg_data-created = refl

created_dispatched_example :
    dispatch_message_handler MessageClass.msg_data ≡ expected_handler MessageClass.msg_data
created_dispatched_example =
    created_dispatched message_msg_data MessageClass.msg_data msg_data-created

on_data_received_lem_example : on_data_received message_group_history_msg_request ≡ (
    if message_group_history_msg_request == message_heartbeat
    then sent_back
    else elim (create_message message_group_history_msg_request) [
      | none ↦ dropped
      | some n ↦ posted
    ])
on_data_received_lem_example = on_data_received_lem message_group_history_msg_request

abbrev an_ack : MsgReadAck
an_ack = record {
  base = record { attach_data_type = attach_null; attach_data = []; reserved = 0 };
  request_id = 4;
  from_user_id = 5;
  to_user_id = 6;
  client_type = 17;
}

abbrev counters : CacheManager
counters = run (sent 5 6 ∷ sent 5 7 ∷ [])

execute_msg_read_ack_lem_example :
    let (response, c') = execute_msg_read_ack (λ n. n / 65536) 7 an_ack counters in
    (get_user_friend_unread_count 5 6 17 c' ≡ 0)
    × (response.result ≡ (elim (find 5 counters.unread_instance) [ none ↦ 1 | some u ↦ 0 ]))
    × (response.request_id ≡ 4)
execute_msg_read_ack_lem_example =
    execute_msg_read_ack_lem (λ n. n / 65536) 7 an_ack counters
      (run-UnreadIsSorted (sent 5 6 ∷ sent 5 7 ∷ [])) (ground arith) (ground arith)

abbrev some_stream : ByteStream.In bytes
some_stream = ByteStream.open_in bytes (1 ∷ 0 ∷ 0 ∷ 0 ∷ 5 ∷ 0 ∷ 0 ∷ 0 ∷ [])

change_member-parsed_example :
    (execute_group_change_member database 7 1000
      (parse_from_byte_stream bytes (create 7) some_stream).1
      members).0.change_type
    ≡ (if 7 == 0 then 0 else 1)
change_member-parsed_example = change_member-parsed database bytes some_stream 7 1000 members

abbrev a_request : GroupChangeMemberRequest
a_request = record {
  base = record { attach_data_type = attach_db; attach_data = 1 ∷ []; reserved = 0 };
  change_type = 0;
  req_user_id = 5;
  group_id = 9;
  user_list = 7 ∷ [];
}

group_9-found : get_group_info database 9 members ≡ some group_9
unfolding get_group_info
group_9-found = refl

change_member-status_example :
    (execute_group_change_member database 7 1000 a_request members).1 (pos 9) (pos 7) ≡ (
      if int_eq (signed32 9) (pos 9) && elem 7 (7 ∷ [])
      then (if 0 == 0
          then joined database 7 (members (pos 9) (pos 7))
          else if may_quit 5 group_9
          then set_status 0 (members (pos 9) (pos 7))
          else members (pos 9) (pos 7))
      else members (pos 9) (pos 7))
change_member-status_example =
    change_member-status database 7 1000 a_request group_9 members (answer (pos 9) (7 ∷ []) members)
      refl group_9-found refl refl (pos 9) 7
