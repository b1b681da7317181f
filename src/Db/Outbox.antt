-- ===== src/Db/Outbox.antt =====
-- crates/bridge/src/db.rs: the table `outbox`, without the insertions.
use pushcompat.Prelude.{
  ℕ, suc, ◌+◌, List, [], ◌∷◌, Option, none, some, Bool, ◌&&◌, Text, ◌=?◌, ◌==◌, find, update,
  delete, select, length, take, ltb, leb, if◌then◌else◌,
}
use pushcompat.Types.Transport.{web_socket, unified_push, same}
use pushcompat.Types.MessageKind.{MessageKind}
use pushcompat.Db.Tables.{Tables, OutboxRow}
use pushcompat.Db.Registrations.{has_key}

pub record OutboxMessage : Type 0 where
  pub id : ℕ
  pub install_id : Text
  pub app_id : Text
  pub kind : MessageKind
  pub connector_token : Option Text
  pub payload : Text
  pub endpoint : Option Text
  pub attempts : ℕ

-- The columns of a row; the endpoint is another table's.
abbrev pub message_of : Option Text → OutboxRow → OutboxMessage
message_of endpoint row = record {
  id = row.id;
  install_id = row.install_id;
  app_id = row.app_id;
  kind = row.kind;
  connector_token = row.connector_token;
  payload = row.payload;
  endpoint = endpoint;
  attempts = row.attempts;
}

-- The rows that a socket delivers to an installation.
unfoldable pub for_socket : Text → OutboxRow → Bool
for_socket install_id row = row.install_id =? install_id && same row.transport web_socket

unfoldable pub next_socket_row : Text → ℕ → List OutboxRow → Option OutboxRow
unfolding for_socket
next_socket_row install_id cursor rows =
    find (λ row. for_socket install_id row && ltb cursor row.id) rows

-- The installation's lowest id above the cursor.
unfoldable pub next_socket_message : Text → ℕ → Tables → Option OutboxMessage
unfolding next_socket_row
next_socket_message install_id cursor t = elim (next_socket_row install_id cursor t.outbox) [
  | none ↦ none
  | some row ↦ some (message_of none row)
]

-- A join with `registrations`: a message whose app has no registration is not due.
unfoldable pub due_rows : Tables → List OutboxRow → List OutboxMessage
unfolding has_key
due_rows t [] = []
due_rows t (row ∷ rows) =
    let rest = due_rows t rows in
    if same row.transport unified_push && leb row.next_attempt_at t.now
    then elim (find (has_key row.install_id row.app_id) t.registrations) [
      | none ↦ rest
      | some registration ↦ message_of (some registration.endpoint) row ∷ rest
    ]
    else rest

unfoldable pub due_unified_push_messages : ℕ → Tables → List OutboxMessage
unfolding due_rows
due_unified_push_messages limit t = take limit (due_rows t t.outbox)

unfoldable pub is_socket_message : Text → ℕ → OutboxRow → Bool
unfolding for_socket
is_socket_message install_id id row = for_socket install_id row && row.id == id

-- True if exactly one row was deleted.
unfoldable pub ack_socket_message : Text → ℕ → Tables → Bool × Tables
unfolding is_socket_message
ack_socket_message install_id id t = (
  length (select (is_socket_message install_id id) t.outbox) == 1,
  record t { outbox = delete (is_socket_message install_id id) t.outbox },
)

unfoldable pub is_socket_through : Text → ℕ → OutboxRow → Bool
unfolding for_socket
is_socket_through install_id cursor row = for_socket install_id row && leb row.id cursor

unfoldable pub ack_socket_through : Text → ℕ → Tables → ℕ × Tables
unfolding is_socket_through
ack_socket_through install_id cursor t = (
  length (select (is_socket_through install_id cursor) t.outbox),
  record t { outbox = delete (is_socket_through install_id cursor) t.outbox },
)

unfoldable pub delete_outbox_message : ℕ → Tables → Tables
delete_outbox_message id t = record t { outbox = delete (λ row. row.id == id) t.outbox }

abbrev pub deferred : ℕ → OutboxRow → OutboxRow
deferred at row = record row { attempts = suc row.attempts; next_attempt_at = at }

unfoldable pub defer_outbox_message : ℕ → ℕ → Tables → Tables
defer_outbox_message id seconds t = record t {
  outbox = update (λ row. row.id == id) (deferred (t.now + seconds)) t.outbox;
}

-- COALESCE(MAX(id), 0).
unfoldable pub max_id : List OutboxRow → ℕ
max_id [] = 0
max_id (row ∷ rows) = let rest = max_id rows in if ltb rest row.id then row.id else rest

unfoldable pub max_outbox_id : Tables → ℕ
unfolding max_id
max_outbox_id t = max_id t.outbox
