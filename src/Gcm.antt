-- ===== src/Gcm.antt =====
-- crates/listener/src/gcm.rs and crates/listener/src/session.rs: the registration with Google and
-- the decryption of what it delivers.
pub mod Result
pub mod WebPush
pub mod RoundTrip
pub mod Sealed
pub mod Http
pub mod Retries
pub mod Session
pub mod Usable
pub mod Registration
