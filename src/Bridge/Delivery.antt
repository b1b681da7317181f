-- ===== src/Bridge/Delivery.antt =====
-- crates/bridge/src/delivery.rs: what is put into the outbox and who is woken, and how a message is
-- posted to a UnifiedPush endpoint.
use pushcompat.Prelude.{
  ℕ, zero, suc, ◌*◌, ◌^◌, List, [], ◌∷◌, Option, none, some, Bool, true, false, not, ◌&&◌, Text,
  leb, ltb, ◌==◌, min, if◌then◌else◌,
}
use pushcompat.Exec.{ok, failed, Exec, ◌>>=◌, ◌>>◌, pure, modify}
use pushcompat.Types.Transport.{Transport}
use pushcompat.Db.Tables.{Tables}
use pushcompat.Db.Outbox.{OutboxMessage, delete_outbox_message, defer_outbox_message}
use pushcompat.Db.Enqueue.{
  Enqueued, queued, skipped, no_rows, enqueue_fcm_message, enqueue_unified_push_message,
}
use pushcompat.Socket
use pushcompat.Bridge.State.{AppState, DeliveryTarget, unified_push, web_socket, call, execute}

abbrev pub is_empty : Text → Bool
is_empty [] = true
is_empty (b ∷ bs) = false

-- `DeliveryTarget::from_parts`. `none` is the error of a missing endpoint.
unfoldable pub from_parts : Transport → Text → Option DeliveryTarget
from_parts Transport.unified_push endpoint =
    if is_empty endpoint then none else some (unified_push endpoint)
from_parts Transport.web_socket endpoint = some web_socket

unfoldable pub transport : DeliveryTarget → Transport
transport (unified_push endpoint) = Transport.unified_push
transport web_socket = Transport.web_socket

abbrev pub wake_socket : Text → AppState → AppState
wake_socket install_id s = record s { hub = Socket.wake install_id s.hub }

-- Who is to deliver a message for the target.
unfoldable pub wake_target : Text → DeliveryTarget → AppState → AppState
wake_target install_id (unified_push endpoint) s = record s { up_wake = true }
wake_target install_id web_socket s = wake_socket install_id s

abbrev pub wake_queued : Text → DeliveryTarget → Enqueued → Exec AppState (Option ℕ)
wake_queued install_id target (queued id) s = (ok (some id), wake_target install_id target s)
wake_queued install_id target skipped s = (ok none, s)
wake_queued install_id target no_rows s = (failed, s)

-- `enqueue_fcm`: somebody is woken only for a message that is in the outbox.
unfoldable pub enqueue_fcm :
    Text → Text → DeliveryTarget → Option Text → Text → Exec AppState (Option ℕ)
unfolding call transport wake_target
enqueue_fcm install_id app_id target persistent_id payload = do
  result ← call (enqueue_fcm_message install_id app_id (transport target) persistent_id payload)
  wake_queued install_id target result

unfoldable pub enqueue_unified_push : Text → Text → Text → Text → Exec AppState ℕ
unfolding call
enqueue_unified_push install_id app_id connector_token payload = do
  id ← call (enqueue_unified_push_message install_id app_id connector_token payload)
  modify (wake_socket install_id)
  pure id

-- An HTTP status, or an error of the client.
pub data Response : Type 0 where
  status : ℕ → Response
  transport_error : Response

pub data Forwarded : Type 0 where
  delivered gave_up : Forwarded

abbrev pub is_success : ℕ → Bool
is_success code = leb 200 code && ltb code 300

-- A client error that a retry cannot mend: any but 429.
abbrev pub is_permanent : ℕ → Bool
is_permanent code = leb 400 code && (ltb code 500 && not (code == 429))

abbrev pub max_attempts : ℕ
max_attempts = 4

-- What one attempt decides; `none` is another attempt.
unfoldable pub verdict : Response → Option Forwarded
verdict (status code) =
    if is_success code then some delivered else if is_permanent code then some gave_up else none
verdict transport_error = none

-- What the loop of `forward_to_up` comes to: the result, the delays slept, in milliseconds, and how
-- often the message was posted.
pub record Forwarding : Type 0 where
  pub result : Forwarded
  pub delays : List ℕ
  pub posts : ℕ

abbrev pub after_delay : ℕ → Forwarding → Forwarding
after_delay delay f = record f { delays = delay ∷ f.delays; posts = suc f.posts }

abbrev pub ended : Forwarded → Forwarding
ended f = record { result = f; delays = []; posts = 1 }

-- The loop, with the attempts left, the delay before the next one, and the response that each
-- attempt meets.
unfoldable pub forward_loop : ℕ → ℕ → (ℕ → Response) → Forwarding
unfolding verdict
forward_loop zero delay responses = record { result = gave_up; delays = []; posts = 0 }
forward_loop (suc zero) delay responses = elim (verdict (responses 0)) [
  | some f ↦ ended f
  | none ↦ ended gave_up
]
forward_loop (suc (suc left)) delay responses =
    let rest = forward_loop (suc left) (delay * 3) (λ k. responses (suc k)) in
    elim (verdict (responses 0)) [ some f ↦ ended f | none ↦ after_delay delay rest ]

unfoldable pub forward_to_up : (ℕ → Response) → Forwarding
unfolding forward_loop
forward_to_up responses = forward_loop max_attempts 500 responses

-- The back-off after a failed delivery: `5_i64 * (1_i64 << attempts.min(6))`.
unfoldable pub retry_seconds : ℕ → ℕ
retry_seconds attempts = 5 * 2 ^ min attempts 6

-- The rows after one delivery: done, or due again later.
unfoldable pub settle : OutboxMessage → Forwarded → Tables → Tables
unfolding retry_seconds
settle message delivered = delete_outbox_message message.id
settle message gave_up = defer_outbox_message message.id (retry_seconds message.attempts)

-- A message without an endpoint is dropped. An error of the database is logged and left at that.
unfoldable pub deliver_to_unified_push : OutboxMessage → (Text → ℕ → Response) → AppState → AppState
unfolding forward_to_up settle call
deliver_to_unified_push message post s = elim message.endpoint [
  | none ↦ (call (execute (delete_outbox_message message.id)) s).1
  | some endpoint ↦ (call (execute (settle message (forward_to_up (post endpoint)).result)) s).1
]
