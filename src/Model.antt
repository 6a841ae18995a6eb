-- ===== src/Model.antt =====
-- The managers of zaresd/model, which keep the server's data.
pub mod Counter
pub mod Group
pub mod Message
