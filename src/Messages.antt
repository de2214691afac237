-- ===== src/Messages.antt =====
-- dht/protocol/messages.hpp and messages.cpp.
pub mod Memory
pub mod Hash
pub mod Str
pub mod Node
pub mod File
pub mod Ping
pub mod Search
pub mod Archive
