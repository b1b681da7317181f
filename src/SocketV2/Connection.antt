-- ===== src/SocketV2/Connection.antt =====
-- crates/bridge/src/socket_v2.rs: `V2Connection`. A method runs on the connection, the database
-- and the hub, and may fail where a statement fails: `faults` says which of the statements to come do.

use pushcompat.Prelude.{
  ℕ, List, [], ◌∷◌, ◌++◌, Option, none, some, Bool, true, false, Text, ◌==◌, if◌then◌else◌, lookup,
  insert, remove, keys,
}
use pushcompat.Prelude.Int.{ℤ, pos, negsuc}
use pushcompat.Exec.{Outcome, ok, failed, Exec, ◌>>=◌, ◌>>◌, pure, fail, modify}
use pushcompat.Crypto.{Crypto}
use pushcompat.Types.Cursor.{clamp}
use pushcompat.Db.Tables.{Tables}
use pushcompat.Db.Installations.{installation_secret, touch_installation}
use pushcompat.Db.Outbox.{
  next_socket_message, ack_socket_message, ack_socket_through, max_outbox_id,
}
use pushcompat.Socket.{SocketHub}
use pushcompat.Socket
use pushcompat.SocketV2.Crypt.{
  ProtectedPayload, verify_attach_proof, derive_payload_key, encrypt_message_with_nonce,
}

pub data ServerFrame : Type 0 where
  hello : Text → ServerFrame
  attached detached : Text → ServerFrame
  attach_error : Text → ServerFrame
  message : Text → ℕ → Text → ServerFrame

-- `Ready` holds the cursor: what is above it has not been sent.
pub data AttachmentState : Type 0 where
  ready : ℕ → AttachmentState
  awaiting_ack : ℕ → AttachmentState

pub record Attachment : Type 0 where
  pub state : AttachmentState
  pub key : Text

pub record V2Connection : Type 0 where
  pub connection_id : ℕ
  pub event_sender : ℕ
  pub attachments : List (Text × Attachment)
  pub nonce : Text

pub record World : Type 0 where
  pub connection : V2Connection
  pub tables : Tables
  pub hub : SocketHub
  pub faults : List Bool

-- `conn.call`: the statement runs, or it fails and changes nothing.
abbrev pub call_with {ℓ} :
    {A : Type ℓ} → (Tables → A × Tables) → World → List Bool → Outcome A × World
call_with f w [] = let (a, t) = f w.tables in (ok a, record w { tables = t })
call_with f w (true ∷ faults) = (failed, record w { faults = faults })
call_with f w (false ∷ faults) =
    let (a, t) = f w.tables in (ok a, record w { tables = t; faults = faults })

unfoldable pub call : {A : Type 0} → (Tables → A × Tables) → Exec World A
call f w = call_with f w w.faults

abbrev pub query : {A : Type 0} → (Tables → A) → Tables → A × Tables
query f t = (f t, t)

abbrev pub execute : (Tables → Tables) → Tables → Unit {0} × Tables
execute f t = (tt, f t)

-- `with_nonce`: a new connection, known to the hub by its number.
unfoldable pub with_nonce : Text → SocketHub → V2Connection × SocketHub
unfolding Socket.new_connection
with_nonce nonce hub =
    let (connection_id, hub') = Socket.new_connection hub in
    (
      record {
        connection_id = connection_id;
        event_sender = connection_id;
        attachments = [];
        nonce = nonce;
      },
      hub',
    )

abbrev pub set_attachment : Text → Attachment → World → World
set_attachment install_id attachment w =
    let connection = w.connection in
    record w {
      connection = record connection {
        attachments = insert install_id attachment connection.attachments;
      };
    }

-- `self.hub.attach` with the connection's own number and channel.
abbrev pub attach_hub : Text → World → World
attach_hub install_id w = record w {
  hub = Socket.attach install_id w.connection.connection_id w.connection.event_sender w.hub;
}

-- `detach`: true if the installation was attached here.
unfoldable pub detach : Text → World → Bool × World
unfolding Socket.detach
detach install_id w = elim (lookup install_id connection.attachments) [
  | none ↦ (false, w)
  | some _ ↦ (
    true,
    record w {
      connection = record connection { attachments = remove install_id connection.attachments };
      hub = Socket.detach install_id connection.connection_id w.hub;
    },
  )
]
  where
    open w use {connection}

abbrev pub is_awaiting : AttachmentState → ℕ → Bool
is_awaiting (ready cursor) id = false
is_awaiting (awaiting_ack expected) id = expected == id

-- `state = AttachmentState::Ready(..)` or `AwaitingAck(..)` of an attachment that is there.
unfoldable pub set_state : Text → AttachmentState → World → World
set_state install_id state w = elim (lookup install_id w.connection.attachments) [
  | none ↦ w
  | some attachment ↦ set_attachment install_id (record attachment { state = state }) w
]

-- `acknowledge`, for the id of a frame that is a natural number; an id below zero is awaited never.
unfoldable pub acknowledge_id : Text → ℕ → Exec World Bool
unfolding call set_state
acknowledge_id install_id id w = elim (lookup install_id w.connection.attachments) [
  | none ↦ (ok false, w)
  | some attachment ↦
      if is_awaiting attachment.state id
      then ((do
        deleted ← call (ack_socket_message install_id id)
        (if deleted then (do modify (set_state install_id (ready id)); pure true) else pure false))
          w)
      else (ok false, w)
]

unfoldable pub acknowledge : Text → ℤ → Exec World Bool
unfolding acknowledge_id
acknowledge install_id (pos id) = acknowledge_id install_id id
acknowledge install_id (negsuc n) = pure false

module _ (c : Crypto) where
  -- What follows a proof that was accepted.
  unfoldable pub attach_verified : Text → Text → ℤ → Exec World Bool
  unfolding call
  attach_verified install_id secret requested = do
    maximum_cursor ← call (query max_outbox_id)
    let cursor = clamp requested maximum_cursor
    _ ← call (ack_socket_through install_id cursor)
    call (execute (touch_installation install_id))
    modify (attach_hub install_id)
    (elim (derive_payload_key c secret) [
      | none ↦ fail
      | some key ↦ (do
        modify (set_attachment install_id (record { state = ready cursor; key = key }))
        pure true)
    ])

  unfoldable pub attach_secret : Text → Text → ℤ → Option Text → Exec World Bool
  unfolding attach_verified
  attach_secret install_id proof requested none w = (ok false, w)
  attach_secret install_id proof requested (some secret) w =
      if verify_attach_proof c secret w.connection.nonce install_id proof
      then attach_verified install_id secret requested w
      else (ok false, w)

  unfoldable pub attach : Text → Text → ℤ → Exec World Bool
  unfolding attach_secret call
  attach install_id proof requested = do
    secret ← call (query (installation_secret install_id))
    attach_secret install_id proof requested secret

  module _ (to_vec : ProtectedPayload → Option Text) where
    -- A message to an attachment that is ready; the nonce is the one drawn for it.
    unfoldable pub pending_message : Text → Text → Attachment → ℕ → Exec World (List ServerFrame)
    unfolding call set_state
    pending_message nonce install_id attachment cursor = do
      next ← call (query (next_socket_message install_id cursor))
      (elim next [
        | none ↦ pure []
        | some next ↦
            elim (encrypt_message_with_nonce c to_vec install_id next attachment.key nonce) [
              | none ↦ fail
              | some ciphertext ↦ (do
                modify (set_state install_id (awaiting_ack next.id))
                pure (message install_id next.id ciphertext ∷ []))
            ]
      ])

    -- An attachment that awaits an acknowledgement is passed by.
    abbrev pub pending_state :
        Text → Text → Attachment → AttachmentState → Exec World (List ServerFrame)
    pending_state nonce install_id attachment (ready cursor) =
        pending_message nonce install_id attachment cursor
    pending_state nonce install_id attachment (awaiting_ack id) = pure []

    -- One round of the loop over the attachments.
    unfoldable pub pending_for : Text → Text → Exec World (List ServerFrame)
    unfolding pending_message
    pending_for nonce install_id w = elim (lookup install_id w.connection.attachments) [
      | none ↦ (ok [], w)
      | some attachment ↦ pending_state nonce install_id attachment attachment.state w
    ]

    -- The loop, with the nonce that is drawn for each installation.
    unfoldable pub pending_all : (Text → Text) → List Text → Exec World (List ServerFrame)
    unfolding pending_for
    pending_all draw [] = pure []
    pending_all draw (install_id ∷ install_ids) = do
      frames ← pending_for (draw install_id) install_id
      more ← pending_all draw install_ids
      pure (frames ++ more)

    unfoldable pub pending_messages : (Text → Text) → Exec World (List ServerFrame)
    unfolding pending_all
    pending_messages draw w = pending_all draw (keys w.connection.attachments) w

unfoldable pub detach_all : List Text → World → World
unfolding detach
detach_all [] w = w
detach_all (install_id ∷ install_ids) w = detach_all install_ids (detach install_id w).1

unfoldable pub shutdown : World → World
unfolding detach_all
shutdown w = detach_all (keys w.connection.attachments) w
