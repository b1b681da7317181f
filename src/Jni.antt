-- ===== src/Jni.antt =====
-- crates/jni/src/lib.rs: the listener on the device, as the Java side calls it.
pub mod Handle
pub mod Stops
pub mod Registry
pub mod Numbers
pub mod Setup
pub mod Ready
