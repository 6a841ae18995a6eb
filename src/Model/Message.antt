-- ===== src/Model/Message.antt =====
-- The relations of users and their messages: zaresd/model/zares/zares_relationship_manager_impl.cc and
-- zaresd/model/zares/zares_message_manager_impl.cc.
pub mod Example
mod Tests
pub mod Store
pub mod Relationship
pub mod Sending
