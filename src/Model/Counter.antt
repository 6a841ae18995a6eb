-- ===== src/Model/Counter.antt =====
-- The counters of unread messages: zaresd/model/counter_manager.h and
-- zaresd/model/zares/zares_counter_manager_impl.{h,cc}.
pub mod Cache
pub mod Manager
pub mod Unread
pub mod History
pub mod Groups
pub mod Report
mod Tests
