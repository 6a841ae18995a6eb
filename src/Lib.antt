-- ===== src/Lib.antt =====
-- The messages, the counters, the groups and the dispatch of zattd, a server that stores the messages
-- of a TeamTalk system. A front server sends packets; a client handler looks at the message type of
-- a packet and posts it to a handler thread (zaresd/client_comm_handler.cc), which makes the
-- object of the message type (zaresd/register_message_factory.cc), parses it (proto/) and calls
-- the handler of the type (zaresd/message_handler/). A handler calls the managers of
-- zaresd/model/ and sends a response, which is a message too.
--
--   Base         Boolean tests, the conditional, lists, uint32 and integers on the native numbers.
--   Base.StdMap  std::map<uint32, V>: an association list in the order of its keys.
--   Wire         net::ByteStream, a parameter: the class belongs to another repository. What is
--                relied on are the laws of the record ByteStream: values that were written are
--                read back, a write into a buffer without room fails, and a failure stays.
--                Wire.Bytes has such a stream, of bytes. Wire.Arrays has the array macros of
--                proto/base_teamtalk_pdu.h, whose loops are recursion on the size that was read.
--   Proto        BasePdu is proto/base_teamtalk_pdu.{h,cc}, BaseData proto/base_data.h,
--                MessageTypes proto/const_message_pdu_types.h, and each other module is the class
--                of its name in proto/: its fields, constructor, ByteSize, ParseFromByteStream and
--                SerializeToByteStream. Codec has what every class has in common, and Message
--                joins the classes but for ValidateResponse, whose parser and serializer do not
--                agree on when there is a user.
--   Server       Dispatch has the tables of message types and what happens to a packet. SendMessage,
--                ReadAck and GroupHandlers are the handlers of MsgData, MsgReadAck,
--                GroupChangeMemberRequest and GroupCreateTmpGroupRequest of
--                zaresd/message_handler/.
--   Model        Counter is zaresd/model/zares/zares_counter_manager_impl.{h,cc}, and Group
--                JoinGroup, QuitGroup, CreateGroup and the check of GetGroupInfo of
--                zaresd/model/zares/zares_group_manager_impl.cc. The database is the parameter
--                Model.Group.Database: a statement is a value in place of its text, with an integer
--                for what %d prints of a uint32, and what is relied on is which statuses a
--                statement changes and a query reports. How MakeQueryString fills a statement is
--                part of the parameter too. Message has the methods that send of
--                zaresd/model/zares/zares_message_manager_impl.cc and the relations of two users of
--                zaresd/model/zares/zares_relationship_manager_impl.cc, over a parameter of the same
--                kind, which has no laws; the hypothesis `accepts` says that an insertion of a message
--                reports a positive number of rows.
--
-- A method becomes a function from the object, or the stream, to what it returns and what it leaves.
-- A field that a constructor does not initialise holds the parameter `garbage`, cut to its width.
-- Numbers are natural numbers, with the remainder modulo 2^32 where the source computes on uint32.
-- No function needs fuel: the loops run over lists or count down from a number that was read.
-- std::map is a sorted list, and that the order is kept is proved where erase relies on it. The locks
-- of CacheManager make each of its methods one step, which is how they are modelled.
--
-- Not modelled: the managers of logins, users, departments and files, the queries of stored messages,
-- recent contacts and groups, the other handlers, threads, sockets and the configuration. The
-- database, the message framework and the network library belong to other repositories.
pub mod Base
pub mod Model
pub mod Proto
pub mod Server
pub mod Wire
