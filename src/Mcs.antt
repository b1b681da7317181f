-- ===== src/Mcs.antt =====
-- crates/listener/src/push.rs: the MCS stream of frames from Google.
pub mod Varint
pub mod Stream
pub mod RoundTrip
pub mod Frames
pub mod Data
