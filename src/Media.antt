-- ===== src/Media.antt =====
-- The media formats of crates/nexus-media.
pub mod RtpHeader
pub mod Rtcp
mod Tests
