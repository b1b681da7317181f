-- ===== src/Socket.antt =====
-- crates/bridge/src/socket.rs: which connection an installation is attached to, and the channels
-- through which the hub tells a connection of it.
use pushcompat.Prelude.{
  ℕ, suc, List, [], ◌∷◌, ◌++◌, Option, none, some, Bool, false, Text, ◌==◌, length, if◌then◌else◌,
  lookup, insert, remove,
}

pub data SocketEvent : Type 0 where
  wake_up : SocketEvent
  replaced : Text → SocketEvent

-- A sender is named by the number of its channel.
pub record AttachedSocket : Type 0 where
  pub connection_id : ℕ
  pub sender : ℕ

-- `channels` holds the events that each receiver has not read yet; nobody reads those of a
-- connection that is gone. `next_id` is a 64-bit counter, which does not wrap within the life of
-- a process.
pub record SocketHub : Type 0 where
  pub next_id : ℕ
  pub attachments : List (Text × AttachedSocket)
  pub channels : ℕ → List SocketEvent

abbrev pub new : SocketHub
new = record { next_id = 1; attachments = []; channels = λ _. [] }

-- The new connection's number; its channel has the same number.
unfoldable pub new_connection : SocketHub → ℕ × SocketHub
new_connection hub = (hub.next_id, record hub { next_id = suc hub.next_id })

unfoldable pub send : ℕ → SocketEvent → SocketHub → SocketHub
send sender event hub = record hub {
  channels = λ c. if c == sender then hub.channels c ++ event ∷ [] else hub.channels c;
}

-- `events.recv()`: the oldest event, taken off the channel.
unfoldable pub recv : ℕ → SocketHub → Option SocketEvent × SocketHub
recv receiver hub = elim (hub.channels receiver) [
  | [] ↦ (none, hub)
  | event ∷ events ↦
      (some event, record hub { channels = λ c. if c == receiver then events else hub.channels c })
]

-- The installation moves to the connection, and the one that had it is told.
unfoldable pub attach : Text → ℕ → ℕ → SocketHub → SocketHub
unfolding send
attach install_id connection_id sender hub = elim (lookup install_id hub.attachments) [
  | none ↦ inserted
  | some previous ↦
      if previous.connection_id == connection_id
      then inserted
      else send previous.sender (replaced install_id) inserted
]
  where
    inserted : SocketHub
    inserted = record hub {
      attachments =
          insert install_id (record { connection_id = connection_id; sender = sender })
            hub.attachments;
    }

-- Only the connection that the installation is attached to can detach it.
unfoldable pub detach : Text → ℕ → SocketHub → SocketHub
detach install_id connection_id hub = elim (lookup install_id hub.attachments) [
  | none ↦ hub
  | some socket ↦
      if socket.connection_id == connection_id
      then record hub { attachments = remove install_id hub.attachments }
      else hub
]

unfoldable pub wake : Text → SocketHub → SocketHub
unfolding send
wake install_id hub = elim (lookup install_id hub.attachments) [
  | none ↦ hub
  | some socket ↦ send socket.sender wake_up hub
]

unfoldable pub active_count : SocketHub → ℕ
active_count hub = length hub.attachments

-- `upgrade`: only version 2 of the protocol is spoken. True means that the connection is opened.
unfoldable pub accepts_version : Option ℕ → Bool
accepts_version none = false
accepts_version (some version) = version == 2
