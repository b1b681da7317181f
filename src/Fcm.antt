-- ===== src/Fcm.antt =====
-- crates/bridge/src/fcm.rs: the parts of the FCM manager that need no connection.
pub mod Sender
pub mod Replay
pub mod Intent
pub mod Extras
pub mod Listener
pub mod Stored
pub mod Memory
pub mod Runs
pub mod Refinement
pub mod Logins
pub mod Elsewhere
