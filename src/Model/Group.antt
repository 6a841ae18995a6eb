-- ===== src/Model/Group.antt =====
-- The members of groups: zaresd/model/zares/zares_group_manager_impl.cc.
pub mod Database
pub mod Manager
pub mod Statuses
pub mod Members
pub mod Creation
pub mod Example
mod Tests
