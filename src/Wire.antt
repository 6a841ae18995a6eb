-- ===== src/Wire.antt =====
-- The byte stream of the network library, as the messages of proto/ use it (net::ByteStream).
-- The class is not part of the repository: it is the parameter `ByteStream` of the model.
pub mod Stream
pub mod Rules
pub mod Arrays
pub mod Bytes
