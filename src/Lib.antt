-- ===== src/Lib.antt =====
-- Verification of the PushCompat bridge.
--
-- The bridge receives messages from Firebase Cloud Messaging for apps whose devices have no Google
-- services, and web push messages for UnifiedPush connectors, and delivers both: over a WebSocket
-- that a device holds open, or by a post to a UnifiedPush endpoint. Handlers of the HTTP server
-- (crates/bridge/src/main.rs) check a request, change the database (db.rs) and start or stop the
-- listeners (fcm.rs); a listener registers with Google (crates/listener/src/gcm.rs), reads frames
-- (crates/listener/src/push.rs) and puts messages into the outbox (delivery.rs), which wakes the
-- socket of the installation (socket.rs). A socket (socket_v2.rs) sends the messages of the
-- outbox one by one, each when the one before it was acknowledged. crates/jni runs listeners on a
-- device instead, and crates/patcher rewrites the package of an app so that it takes
-- its messages this way.
--
-- Types: crates/bridge/src/types.rs. A newtype over a text is a text, and the transports and kinds
--   of message are data types. Spelling is about their texts.
-- Db: crates/bridge/src/db.rs and crates/bridge/sql/schema.sql. Tables are lists of rows;
--   Installations, Registrations, Connectors, Acks, Outbox and Enqueue hold the methods of
--   `Database` under their names, and Calls the histories of them. Invariant, Owners, AckBounds,
--   AckOrder, Untouched, Insertion, Redelivery, Redelivered, Endpoints, Retained and Evolution are
--   about them.
-- Socket: crates/bridge/src/socket.rs, the hub and its channels.
-- SocketV2: crates/bridge/src/socket_v2.rs. Crypt holds proofs and payloads, Connection the methods
--   of `V2Connection`, Loop one round of `run_socket`. Cursor, Order, InOrder, Rounds,
--   History and Drained are about the order of delivery, Replies about an attach and an
--   acknowledgement.
-- Mcs: crates/listener/src/push.rs. Varint is `try_read_varint`, Stream is `poll_next` over the
--   reads to come, Data is `DataMessage`; RoundTrip and Frames are about the first two.
-- Validate, Vapid: crates/bridge/src/validate.rs and crates/bridge/src/vapid.rs.
-- Fcm: crates/bridge/src/fcm.rs. Sender is the sender id, Replay the list of persistent ids, Intent
--   `build_intent_payload` and Listener `run_listener`. Extras, Stored, Memory, Runs, Refinement,
--   Elsewhere and Logins are about them.
-- Gcm: crates/listener/src/gcm.rs with error.rs and session.rs. Result holds `Error`, WebPush
--   `decrypt_web_push`, Http the reading of a response and the retries of `register`, Session
--   `DeviceSessionState`, Registration the posts and the login. RoundTrip, Sealed, Usable and Retries
--   are about them.
-- Jni: crates/jni/src/lib.rs. Handle is `NativeHandle` with the steps that threads interleave,
--   Registry the map of handles, Setup `run_mcs`. Stops, Numbers and Ready are about them.
-- Bridge: crates/bridge/src/main.rs with auth.rs, delivery.rs and the listeners of fcm.rs. State is
--   `AppState` with the replies; Auth, Delivery, Listeners, Register, Distributor and Push hold the
--   functions and handlers. Gate, Ownership, Retry, Secrets, Starting and Tasks are about them.
-- Patcher: crates/patcher/src. Graft is `graft_onto_original` on the entries of the archives, Dex the
--   numbers of dex files (apk.rs), Manifest `add_unifiedpush_receiver` (manifest.rs). Grafted, Fresh
--   and Again are about them.
-- Crypto: the crates for digests, encodings and ciphers, as parameters, with the laws relied on.
-- Prelude and Exec are shared: texts, lists, maps, and code that changes a state and may fail.
-- Tests: runs on small inputs.
--
-- Other tasks come between the rounds of a socket. One attach, one acknowledgement and one look for
-- messages to send each run undisturbed, also where the code awaits several calls of the database.
--
-- A call of the database runs alone and either does all its statements or, where the model has it
-- fail, none: the transactions of db.rs give that, and for the methods without one
-- (`delete_registration`, `prune_stale`) it leaves out a fault between two statements. Ids and
-- counters of 64 bits are natural numbers: AUTOINCREMENT reports an error before they would wrap.
-- The counter of an MCS stream, the sums of a frame's length and those of a token's times keep their
-- limits. Times are in seconds. `trim` removes ASCII spaces. The loop over a varint is bounded by the
-- five rounds of its range, the attempts at a post by the four of the code and those at a
-- registration by its fifteen; every other loop runs over a list, of rows, of reads, of random draws
-- or of what happens next, so no fuel is needed.
--
-- Not modelled: the migration of older database files; JSON, protobuf, TLS, HTTP and gzip, which are
-- libraries; the endless loop around the delivery to UnifiedPush; the constants of the requests to
-- Google; the conversions and exceptions of JNI; what crates/patcher does with files, other programs
-- and regular expressions, and its edits of smali code; the Kotlin shim; nix.
mod Prelude
pub mod Types
mod Exec
pub mod Crypto
pub mod Db
pub mod Socket
pub mod SocketV2
pub mod Mcs
pub mod Validate
pub mod Vapid
pub mod Gcm
pub mod Jni
pub mod Patcher
pub mod Fcm
pub mod Bridge
pub mod Tests
