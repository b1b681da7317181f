-- ===== src/Tests/OfSocket.antt =====
-- crates/bridge/src/socket_v2.rs: a connection that attaches, sends a message and is acknowledged
-- while another task enqueues a second one.
use pushcompat.Prelude.{
  ◌<◌, ◌≡◌, refl, List, [], ◌∷◌, ◌++◌, none, some, true, false, Text, bytes, lookup, insert, All,
  ◌=?◌,
}
use pushcompat.Prelude.Int.{pos}
use pushcompat.Types.InstallId
use pushcompat.Types.Cursor
use pushcompat.Types.Transport.{web_socket}
use pushcompat.Types.MessageKind.{unified_push}
use pushcompat.Db.Tables.{Tables, OutboxRow, empty_tables}
use pushcompat.Db.Calls.{claim, enqueue_push, run, step}
use pushcompat.Db.Installations
use pushcompat.Db.Enqueue
use pushcompat.Db.Outbox
use pushcompat.Db.Outbox.{for_socket, next_socket_row}
use pushcompat.Db.Invariant.History.{WellFormed, run-WellFormed, empty-WellFormed}
use pushcompat.Socket
use pushcompat.SocketV2.Crypt
use pushcompat.SocketV2.Connection
use pushcompat.SocketV2.Connection.{Attachment, ready, awaiting_ack, World}
use pushcompat.SocketV2.Loop
use pushcompat.SocketV2.Loop.{frame, attach_frame, ack_frame}
use pushcompat.SocketV2.Cursor.{AtLeast}
use pushcompat.SocketV2.Order.{NotBefore, next_socket_row-least}
use pushcompat.SocketV2.History.{Event, other, receive, send, happen_all, opened, none_left_behind}
use pushcompat.SocketV2.Replies.{AttachReply, attach-AttachReply, AckReply, acknowledge-AckReply}
use pushcompat.SocketV2.Connection.{attach, acknowledge}
use pushcompat.Tests.Data.{plain-CryptoLaws, plain, install, app, secret}

abbrev started : Tables
started =
    run (claim install secret secret ∷ enqueue_push install app (bytes "c") (bytes "one") ∷ [])
      empty_tables

started-WellFormed : WellFormed started
started-WellFormed =
    run-WellFormed
      (claim install secret secret ∷ enqueue_push install app (bytes "c") (bytes "one") ∷ [])
      empty_tables empty-WellFormed

abbrev nonce : Text
nonce = bytes "nonce"

abbrev events : List Event
events =
    receive (frame (some (attach_frame install (secret ++ nonce ++ install) (pos 0))))
    ∷ send (λ i. bytes "n")
    ∷ other (enqueue_push install app (bytes "c") (bytes "two"))
    ∷ receive (frame (some (ack_frame install (pos 1))))
    ∷ send (λ i. bytes "n")
    ∷ []

abbrev after_events : World
after_events =
    happen_all plain (λ p. some (bytes "json")) events
      (opened nonce Socket.new started (false ∷ []))

abbrev attachment : Attachment
attachment = record { state = awaiting_ack 2; key = secret }

attached_here : lookup install after_events.connection.attachments ≡ some attachment
unfolding happen_all run step lookup Connection.pending_messages Loop.round InstallId.try_from
    Connection.acknowledge Connection.attach Installations.installation_secret
    Enqueue.enqueue_unified_push_message Installations.claim_installation ◌=?◌
    Crypt.verify_attach_proof Connection.with_nonce Crypt.derive_payload_key insert
    Outbox.next_socket_message Installations.touch_installation Outbox.ack_socket_through
    Outbox.ack_socket_message Outbox.max_outbox_id Cursor.clamp Socket.attach
    Crypt.encrypt_message_with_nonce
attached_here = refl

none_left_behind_example : All (AtLeast install 2) after_events.tables.outbox
none_left_behind_example =
    none_left_behind plain (λ p. some (bytes "json")) nonce Socket.new started (false ∷ []) events
      install attachment started-WellFormed attached_here

abbrev row_one : OutboxRow
row_one = record {
  id = 1;
  install_id = install;
  app_id = app;
  kind = unified_push;
  transport = web_socket;
  connector_token = some (bytes "c");
  persistent_id = none;
  payload = bytes "one";
  attempts = 0;
  next_attempt_at = 0;
}

first_row : next_socket_row install 0 started.outbox ≡ some row_one
unfolding next_socket_row for_socket run step Enqueue.enqueue_unified_push_message
    Installations.claim_installation ◌=?◌
first_row = refl

next_socket_row-least_example :
    (for_socket install row_one ≡ true) × (0 < 1) × All (NotBefore install 0 1) started.outbox
next_socket_row-least_example =
    next_socket_row-least install 0 started row_one started-WellFormed first_row

abbrev opened_here : World
opened_here = opened nonce Socket.new started []

attach-AttachReply_example :
    AttachReply plain install
      (secret ++ nonce ++ install)
      opened_here
      (attach plain install (secret ++ nonce ++ install) (pos 0) opened_here)
attach-AttachReply_example =
    attach-AttachReply plain plain-CryptoLaws install (secret ++ nonce ++ install) (pos 0)
      opened_here

acknowledge-AckReply_example :
    AckReply install 2 after_events (acknowledge install (pos 2) after_events)
acknowledge-AckReply_example = acknowledge-AckReply install 2 after_events
