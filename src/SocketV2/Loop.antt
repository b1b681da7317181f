-- ===== src/SocketV2/Loop.antt =====
-- crates/bridge/src/socket_v2.rs: what `run_socket` does with one thing that it receives. A frame
-- that cannot be sent ends the loop after the state has changed, as `closed` does next.
use pushcompat.Prelude.{List, [], ◌∷◌, Option, none, some, Bool, true, false, Text, if◌then◌else◌}
use pushcompat.Prelude.Int.{ℤ}
use pushcompat.Exec.{Outcome, ok, failed}
use pushcompat.Crypto.{Crypto}
use pushcompat.Types.InstallId
use pushcompat.Socket.{SocketEvent, wake_up, replaced}
use pushcompat.Socket
use pushcompat.SocketV2.Connection.{
  ServerFrame, attached, detached, attach_error, World, attach, detach, acknowledge,
}

pub data ClientFrame : Type 0 where
  attach_frame : Text → Text → ℤ → ClientFrame
  detach_frame : Text → ClientFrame
  ack_frame : Text → ℤ → ClientFrame

-- `frame none` is text that is no client frame; `closed` is a close, another opcode, an error of
-- the socket or a frame that could not be sent; `event` reads the connection's channel.
pub data Input : Type 0 where
  frame : Option ClientFrame → Input
  pong heartbeat closed event : Input

-- What is sent, whether the loop goes on, and the state.
abbrev pub Round : Type 0
Round = List ServerFrame × Bool × World

abbrev pub answer : List ServerFrame → World → Round
answer frames w = (frames, true, w)

-- An error ends the loop.
abbrev pub attach_reply : Text → Outcome Bool × World → Round
attach_reply install_id (ok true, w) = answer (attached install_id ∷ []) w
attach_reply install_id (ok false, w) = answer (attach_error install_id ∷ []) w
attach_reply install_id (failed, w) = ([], false, w)

unfoldable pub on_attach : Crypto → Text → Text → ℤ → World → Round
on_attach c install_id proof cursor w = elim (InstallId.try_from install_id) [
  | none ↦ answer (attach_error install_id ∷ []) w
  | some parsed ↦ attach_reply install_id (attach c parsed proof cursor w)
]

-- Answered only if the installation was attached here.
unfoldable pub on_detach : Text → World → Round
on_detach install_id w = elim (InstallId.try_from install_id) [
  | none ↦ answer [] w
  | some parsed ↦
      let (was_attached, w') = detach parsed w in
      answer (if was_attached then detached install_id ∷ [] else []) w'
]

-- An acknowledgement that is not awaited detaches the installation.
abbrev pub ack_reply : Text → Text → Outcome Bool × World → Round
ack_reply install_id parsed (ok true, w) = answer [] w
ack_reply install_id parsed (ok false, w) = answer (detached install_id ∷ []) (detach parsed w).1
ack_reply install_id parsed (failed, w) = ([], false, w)

unfoldable pub on_ack : Text → ℤ → World → Round
on_ack install_id id w = elim (InstallId.try_from install_id) [
  | none ↦ answer (detached install_id ∷ []) w
  | some parsed ↦ ack_reply install_id parsed (acknowledge parsed id w)
]

-- `events.recv()` waits while the channel is empty.
unfoldable pub on_event : World → Round
unfolding on_detach
on_event w =
    let (received, hub) = Socket.recv w.connection.event_sender w.hub in
    let w' = record w { hub = hub } in
    elim received [
      | none ↦ answer [] w
      | some wake_up ↦ answer [] w'
      | some (replaced install_id) ↦ on_detach install_id w'
    ]

unfoldable pub on_frame : Crypto → ClientFrame → World → Round
unfolding on_attach on_detach on_ack
on_frame c (attach_frame install_id proof cursor) w = on_attach c install_id proof cursor w
on_frame c (detach_frame install_id) w = on_detach install_id w
on_frame c (ack_frame install_id id) w = on_ack install_id id w

-- One arm of `run_socket`. Other tasks come between rounds; the awaits within one are taken together.
unfoldable pub round : Crypto → Input → World → Round
unfolding on_frame on_event
round c (frame none) w = ([], false, w)
round c (frame (some f)) w = on_frame c f w
round c pong w = answer [] w
round c heartbeat w = answer [] w
round c closed w = ([], false, w)
round c event w = on_event w
