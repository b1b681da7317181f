-- ===== src/Patcher.antt =====
-- crates/patcher/src: the rewriting of an app's package, as far as it needs no other program.
pub mod Dex
pub mod Fresh
pub mod Graft
pub mod Grafted
pub mod Manifest
pub mod Again
