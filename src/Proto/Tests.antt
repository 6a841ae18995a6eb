-- ===== src/Proto/Tests.antt =====
-- The theorems on messages at concrete messages, over a concrete stream of bytes.
use zattd.Base.{[], ◌∷◌, arith, refl, ◌≡◌, false}
use zattd.Wire.Bytes.{bytes}
use zattd.Proto.BasePdu.{
  BaseTeamTalkPdu, attach_db, attach_null, base_byte_size, serialize_to_array,
}
use zattd.Proto.BaseData.{}
use zattd.Proto.Codec.{Arrives, Fitting, received, roundtrip, refuses_short}
use zattd.Proto.Message.{
  class_of, create_of, delivered_of, codec_of, message_transfer, attach_type, MessageClass,
}
use zattd.Proto.MsgData

abbrev tagged : BaseTeamTalkPdu
tagged = record { attach_data_type = attach_db; attach_data = 1 ∷ 2 ∷ []; reserved = 3 }

abbrev plain : BaseTeamTalkPdu
plain = record { attach_data_type = attach_null; attach_data = []; reserved = 3 }

abbrev a_msg_data : MsgData.MsgData
a_msg_data = record {
  base = tagged;
  request_id = 2;
  from_user_id = 3;
  to_user_id = 4;
  create_time = 5;
  msg_type = 6;
  msg_data = 66 ∷ [];
}

a_msg_data-Fitting : Fitting bytes (MsgData.codec bytes) a_msg_data
unfolding MsgData.codec MsgData.pdu_class MsgData.items base_byte_size
a_msg_data-Fitting = record {
  fields = record {
    request_id = ground arith;
    from_user_id = ground arith;
    to_user_id = ground arith;
    create_time = ground arith;
    msg_type = ground arith;
    msg_data = ground arith;
  };
  attached = ground arith;
  total = ground arith;
}

message_transfer_example :
    Arrives bytes
      (class_of bytes MessageClass.msg_data)
      a_msg_data
      (create_of MessageClass.msg_data 7)
      (delivered_of MessageClass.msg_data 7 a_msg_data)
unfolding class_of codec_of attach_type
message_transfer_example =
    message_transfer bytes MessageClass.msg_data 7 a_msg_data a_msg_data-Fitting refl

roundtrip_example :
    Arrives bytes
      (MsgData.pdu_class bytes)
      a_msg_data
      (MsgData.create 7)
      (received bytes (MsgData.codec bytes) (MsgData.create 7) a_msg_data)
unfolding MsgData.create MsgData.pdu_class
roundtrip_example =
    roundtrip bytes (MsgData.codec bytes) (MsgData.create 7) a_msg_data a_msg_data-Fitting refl

refuses_short_example : (serialize_to_array bytes (MsgData.pdu_class bytes) a_msg_data 20).0 ≡ false
unfolding MsgData.pdu_class MsgData.byte_size base_byte_size
refuses_short_example =
    refuses_short bytes (MsgData.codec bytes) a_msg_data 20 a_msg_data-Fitting (ground arith)
