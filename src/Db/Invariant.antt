-- ===== src/Db/Invariant.antt =====
-- crates/bridge/src/db.rs, crates/bridge/sql/schema.sql: the constraints of the schema, as what
-- holds after any history of calls.
pub mod Outbox
pub mod Keys
pub mod History
