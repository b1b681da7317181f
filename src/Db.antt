-- ===== src/Db.antt =====
-- crates/bridge/src/db.rs and crates/bridge/sql/schema.sql: the tables, and the statements of each
-- method of `Database` as a function on them.
pub mod Tables
pub mod Installations
pub mod Registrations
pub mod Connectors
pub mod Acks
pub mod Outbox
pub mod Enqueue
pub mod Calls
pub mod Invariant
pub mod Owners
pub mod Evolution
pub mod Endpoints
pub mod Retained
pub mod AckBounds
pub mod AckOrder
pub mod Insertion
pub mod Redelivery
pub mod Untouched
pub mod Redelivered
