-- ===== src/Bridge.antt =====
-- crates/bridge/src/main.rs: the HTTP server, with auth.rs, delivery.rs and the listeners of fcm.rs.
pub mod State
pub mod Auth
pub mod Ownership
pub mod Delivery
pub mod Retry
pub mod Secrets
pub mod Listeners
pub mod Tasks
pub mod Starting
pub mod Register
pub mod Distributor
pub mod Push
pub mod Gate
