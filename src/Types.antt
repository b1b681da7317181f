-- ===== src/Types.antt =====
-- crates/bridge/src/types.rs. A newtype over a text is that text; what its `try_from` guarantees is
-- a predicate. `MessageId` and `Cursor` are numbers: the database issues ids from 1 on, and a
-- client's own value, any i64, stands as an integer until the code has compared or clamped it.
pub mod InstallId
pub mod ConnectorToken
pub mod Transport
pub mod MessageKind
pub mod Cursor
pub mod Spelling
