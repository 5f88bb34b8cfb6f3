-- ===== src/State.antt =====
-- The replicated state of crates/nexus-state.
pub mod GCounter
pub mod LwwReg
pub mod Orswot
pub mod Gossip
mod Tests
