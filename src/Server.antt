-- ===== src/Server.antt =====
-- The server in zaresd/: how a message finds its class and its handler.
pub mod Dispatch
mod Tests
pub mod ReadAck
pub mod GroupHandlers
pub mod SendMessage
mod SendTests
