-- ===== src/SocketV2/History.antt =====
-- crates/bridge/src/socket_v2.rs: `run_socket` between whatever other tasks do to the database and
-- to the hub.
use pushcompat.Prelude.{
  ◌≡◌, List, [], ◌∷◌, ◌++◌, Option, none, some, Bool, true, false, Text, lookup, keys, Option-cases,
  inl, inr, All,
}
use pushcompat.Prelude.Int.{ℤ}
use pushcompat.Exec.{Outcome, ok, failed, Exec, after, ◌>>=◌, pure}
use pushcompat.Crypto.{Crypto}
use pushcompat.Types.InstallId
use pushcompat.Socket
use pushcompat.Socket.{SocketHub, SocketEvent, wake_up, replaced}
use pushcompat.Db.Tables.{Tables}
use pushcompat.Db.Calls.{Call, step}
use pushcompat.Db.Invariant.History.{WellFormed}
use pushcompat.SocketV2.Crypt.{ProtectedPayload}
use pushcompat.SocketV2.Connection.{
  Attachment, World, ServerFrame, with_nonce, acknowledge, attach, pending_for, pending_all,
  pending_messages,
}
use pushcompat.SocketV2.Cursor.{floor, AtLeast}
use pushcompat.SocketV2.InOrder.{Sound, step-Sound, detach-Sound, acknowledge-Sound}
use pushcompat.SocketV2.Rounds.{attach-Sound, pending_for-Sound}
use pushcompat.SocketV2.Loop.{
  ClientFrame, attach_frame, detach_frame, ack_frame, Input, frame, pong, heartbeat, closed, event,
  Round, attach_reply, on_attach, on_detach, ack_reply, on_ack, on_event, on_frame, round,
}

-- What may happen next: another task calls the database, or signals through the hub; the loop
-- receives something; or it sends what is pending, with the nonces drawn for it.
pub data Event : Type 0 where
  other : Call → Event
  signal : SocketHub → Event
  receive : Input → Event
  send : (Text → Text) → Event

module _ (c : Crypto) (to_vec : ProtectedPayload → Option Text) where
  unfoldable pub happen : Event → World → World
  happen (other call) w = record w { tables = step call w.tables }
  happen (signal hub) w = record w { hub = hub }
  happen (receive input) w = (round c input w).2
  happen (send draw) w = (pending_messages c to_vec draw w).1

  unfoldable pub happen_all : List Event → World → World
  unfolding happen
  happen_all [] w = w
  happen_all (e ∷ es) w = happen_all es (happen e w)

  more-Sound :
      (frames : List ServerFrame) (r : Outcome (List ServerFrame) × World)
      → Sound r.1
      → Sound (after (λ more. pure (frames ++ more)) r).1
  more-Sound frames (ok more, u) h = h
  more-Sound frames (failed, u) h = h

  later-Sound :
      (rest : Exec World (List ServerFrame)) (r : Outcome (List ServerFrame) × World)
      → ((u : World) → Sound u → Sound (rest u).1)
      → Sound r.1
      → Sound (after (λ frames. rest >>= λ more. pure (frames ++ more)) r).1
  later-Sound rest (ok frames, u) k h = more-Sound frames (rest u) (k u h)
  later-Sound rest (failed, u) k h = h

  after-Sound :
      (install_ids : List Text) (draw : Text → Text) (w : World)
      → Sound w
      → Sound (pending_all c to_vec draw install_ids w).1
  unfolding pending_all
  after-Sound [] draw w v = v
  after-Sound (i ∷ install_ids) draw w v =
      later-Sound (pending_all c to_vec draw install_ids) (pending_for c to_vec (draw i) i w)
        (after-Sound install_ids draw) (pending_for-Sound c to_vec (draw i) i w v)

on_detach-Sound : (i : Text) (w : World) → Sound w → Sound (on_detach i w).2
unfolding on_detach
on_detach-Sound i w v = elim (Option-cases (InstallId.try_from i)) [
  | inl e ↦ rw (e, on_detach) v
  | inr (p, e) ↦ rw (e, on_detach) (detach-Sound p w v)
]

attach_reply-Sound : (i : Text) (r : Outcome Bool × World) → Sound r.1 → Sound (attach_reply i r).2
attach_reply-Sound i (ok true, w) h = h
attach_reply-Sound i (ok false, w) h = h
attach_reply-Sound i (failed, w) h = h

on_attach-Sound :
    (c : Crypto) (i proof : Text) (cursor : ℤ) (w : World)
    → Sound w
    → Sound (on_attach c i proof cursor w).2
unfolding on_attach
on_attach-Sound c i proof cursor w v = elim (Option-cases (InstallId.try_from i)) [
  | inl e ↦ rw (e, on_attach) v
  | inr (p, e) ↦
      rw (e, on_attach)
        (attach_reply-Sound i (attach c p proof cursor w) (attach-Sound c p proof cursor w v))
]

ack_reply-Sound : (i p : Text) (r : Outcome Bool × World) → Sound r.1 → Sound (ack_reply i p r).2
ack_reply-Sound i p (ok true, w) h = h
ack_reply-Sound i p (ok false, w) h = detach-Sound p w h
ack_reply-Sound i p (failed, w) h = h

on_ack-Sound : (i : Text) (id : ℤ) (w : World) → Sound w → Sound (on_ack i id w).2
unfolding on_ack
on_ack-Sound i id w v = elim (Option-cases (InstallId.try_from i)) [
  | inl e ↦ rw (e, on_ack) v
  | inr (p, e) ↦
      rw (e, on_ack) (ack_reply-Sound i p (acknowledge p id w) (acknowledge-Sound p id w v))
]

pub hub-Sound : (hub : SocketHub) (w : World) → Sound w → Sound (record w { hub = hub })
hub-Sound hub w v = record { tables = v.tables; reached = v.reached }

received-Sound :
    (r : Option SocketEvent) (u w : World)
    → Sound u
    → Sound w
    → Sound
        (elim r as (λ _. Round) [
          | none ↦ ([], true, w)
          | some wake_up ↦ ([], true, u)
          | some (replaced i) ↦ on_detach i u
        ]).2
received-Sound none u w h v = v
received-Sound (some wake_up) u w h v = h
received-Sound (some (replaced i)) u w h v = on_detach-Sound i u h

on_event-Sound : (w : World) → Sound w → Sound (on_event w).2
unfolding on_event
on_event-Sound w v =
    let (received, hub) = Socket.recv w.connection.event_sender w.hub in
    received-Sound received (record w { hub = hub }) w (hub-Sound hub w v) v

on_frame-Sound : (c : Crypto) (f : ClientFrame) (w : World) → Sound w → Sound (on_frame c f w).2
unfolding on_frame
on_frame-Sound c (attach_frame i proof cursor) w v = on_attach-Sound c i proof cursor w v
on_frame-Sound c (detach_frame i) w v = on_detach-Sound i w v
on_frame-Sound c (ack_frame i id) w v = on_ack-Sound i id w v

round-Sound : (c : Crypto) (input : Input) (w : World) → Sound w → Sound (round c input w).2
unfolding round
round-Sound c (frame none) w v = v
round-Sound c (frame (some f)) w v = on_frame-Sound c f w v
round-Sound c pong w v = v
round-Sound c heartbeat w v = v
round-Sound c closed w v = v
round-Sound c event w v = on_event-Sound w v

module _ (c : Crypto) (to_vec : ProtectedPayload → Option Text) where
  happen-Sound : (e : Event) (w : World) → Sound w → Sound (happen c to_vec e w)
  unfolding happen pending_messages
  happen-Sound (other call) w v = step-Sound call w.faults w v
  happen-Sound (signal hub) w v = hub-Sound hub w v
  happen-Sound (receive input) w v = round-Sound c input w v
  happen-Sound (send draw) w v = after-Sound c to_vec (keys w.connection.attachments) draw w v

  happen_all-Sound : (es : List Event) (w : World) → Sound w → Sound (happen_all c to_vec es w)
  unfolding happen_all
  happen_all-Sound [] w v = v
  happen_all-Sound (e ∷ es) w v = happen_all-Sound es (happen c to_vec e w) (happen-Sound e w v)

-- A connection as it is opened.
abbrev pub opened : Text → SocketHub → Tables → List Bool → World
opened nonce hub t faults =
    let (connection, hub') = with_nonce nonce hub in
    record { connection = connection; tables = t; hub = hub'; faults = faults }

opened-Sound :
    (nonce : Text) (hub : SocketHub) (t : Tables) (faults : List Bool)
    → WellFormed t
    → Sound (opened nonce hub t faults)
unfolding with_nonce lookup
opened-Sound nonce hub t faults v = record { tables = v; reached = λ i a e. cc }

-- However a connection's frames, its sendings, the statements that fail, and other tasks' calls of
-- the database and signals through the hub come between each other, each frame and each sending
-- running undisturbed: no message of an installation attached to the connection is left behind. Each
-- that the outbox holds for its socket has the awaited id or a higher one, or, where none is awaited,
-- one above the attachment's cursor.
pub none_left_behind :
    (c : Crypto) (to_vec : ProtectedPayload → Option Text) (nonce : Text) (hub : SocketHub)
    (t : Tables) (faults : List Bool) (es : List Event) (i : Text) (a : Attachment)
    → WellFormed t
    → let w = happen_all c to_vec es (opened nonce hub t faults) in
      lookup i w.connection.attachments ≡ some a → All (AtLeast i (floor a.state)) w.tables.outbox
none_left_behind c to_vec nonce hub t faults es i a v e =
    let sound =
      happen_all-Sound c to_vec es (opened nonce hub t faults)
        (opened-Sound nonce hub t faults v) in
    (sound.reached i a e).above
