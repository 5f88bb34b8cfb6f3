-- ===== src/Dataplane.antt =====
-- The data plane of crates/nexus-dataplane.
pub mod Ext
pub mod Subscription
pub mod Rewrite
pub mod Slab
pub mod Pool
pub mod Rtcp
mod Tests
