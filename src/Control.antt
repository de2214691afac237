-- ===== src/Control.antt =====
-- dht/protocol/control_protocol.cpp: what is sent, and what is done with what comes in.
pub mod Send
pub mod Frame
pub mod Handle
pub mod Delivered
pub mod Invariant
pub mod Pings
pub mod Success
pub mod Publishing
