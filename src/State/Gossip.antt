-- ===== src/State/Gossip.antt =====
-- crates/nexus-state/src/gossip: the membership of the cluster and its messages.
pub mod Peers
pub mod Membership
pub mod Updates
pub mod Messages
mod Tests
