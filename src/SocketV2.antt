-- ===== src/SocketV2.antt =====
-- crates/bridge/src/socket_v2.rs: one WebSocket connection of protocol version 2.
pub mod Crypt
pub mod Connection
pub mod Loop
pub mod Cursor
pub mod Order
pub mod InOrder
pub mod Rounds
pub mod Replies
pub mod History
pub mod Drained
