-- ===== src/Relay.antt =====
-- apps/api/src/relay.rs: the relay of messages between connections, with the offline queue.
pub mod JetStream
pub mod Frames
pub mod Sending
pub mod Catchup
pub mod Background
