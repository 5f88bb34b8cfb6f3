-- ===== src/Srtp.antt =====
-- The SRTP layer of crates/nexus-transport/src/srtp: packet indices, the replay window, and the
-- per-direction contexts of the shard.
pub mod Types
pub mod Index
pub mod Replay
pub mod Cipher
pub mod Outbound
pub mod Inbound
mod Tests
