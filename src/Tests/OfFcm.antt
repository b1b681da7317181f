-- ===== src/Tests/OfFcm.antt =====
-- The listener of an app and its outbox, on small inputs.
use pushcompat.Prelude.{
  ◌≤◌, ◌≡◌, refl, [], ◌∷◌, List, none, some, true, false, bytes, ◌=?◌, ltb, any, length, select,
  map, lookup, arith, All,
}
use pushcompat.Mcs.Data.{DataMessage}
use pushcompat.Mcs.Stream.{item, data_message, heartbeat, ended}
use pushcompat.Types.Transport
use pushcompat.Db.Tables.{Tables, empty_tables}
use pushcompat.Db.Calls.{Call, enqueue_fcm, run, step}
use pushcompat.Db.Installations.{claim_installation}
use pushcompat.Db.Connectors.{register_unified_push}
use pushcompat.Db.Enqueue.{enqueue_fcm_message, enqueue_unified_push_message}
use pushcompat.Db.Outbox.{message_of, ack_socket_through, for_socket}
use pushcompat.Db.AckBounds.{AcksBounded}
use pushcompat.Db.Invariant.History.{run-WellFormed, empty-WellFormed}
use pushcompat.Bridge.State.{web_socket}
use pushcompat.SocketV2.Drained.{queue, emptied, drain, drain_all}
use pushcompat.Gcm.Result.{refuse_if}
use pushcompat.Gcm.Registration.{check_history, is_too_long, invalid_history}
use pushcompat.Fcm.Intent.{Json, intent_fields, or_else, raw_fields}
use pushcompat.Fcm.Extras.{stanza_value, last_value, lookup-intent_fields}
use pushcompat.Fcm.Listener.{
  Listener, Config, Attempt, next, connected, elsewhere, connection_failed, on_item, run_listener,
}
use pushcompat.Fcm.Stored.{Handled, on_item-Handled}
use pushcompat.Fcm.Refinement.{InStep, Spares, run_listener-InStep}
use pushcompat.Db.Untouched.{touches}
use pushcompat.Fcm.Elsewhere.{calls_database, step-Spares}
use pushcompat.Fcm.Logins.{run_listener-logins}
use pushcompat.Tests.Data.{install, app, calls, state}

abbrev filled : Tables
filled = run calls empty_tables

short_queue : length (select (λ r. ltb 1 r.id) (queue install filled)) ≤ 5
unfolding run step claim_installation register_unified_push enqueue_fcm_message
    enqueue_unified_push_message for_socket ◌=?◌
short_queue = omega arith

drain_all_example : drain 5 install 1 (ack_socket_through install 1 filled).1 ≡ (
  map (message_of none) (select (λ r. ltb 1 r.id) (queue install filled)),
  emptied install filled,
)
drain_all_example =
    drain_all 5 install 1 filled (run-WellFormed calls empty_tables empty-WellFormed) short_queue

abbrev json : Json
json = record { read_object = λ b. none; from_utf8_lossy = λ b. b; to_vec = λ f. some (bytes "{}") }

abbrev message : DataMessage
message = record {
  raw_data = some (bytes "text");
  persistent_id = some (bytes "p1");
  app_data = (bytes "from", bytes "other") ∷ [];
  from = none;
  category = none;
  id = none;
  collapse_key = none;
}

abbrev config : Config
config = record {
  install_id = install;
  app_id = app;
  sender_id = bytes "123";
  target = web_socket;
  json = json;
}

lookup-intent_fields_example :
    lookup (bytes "from") (intent_fields json message (bytes "123"))
    ≡ or_else (stanza_value (bytes "from") message (bytes "123")) (
        or_else
          (last_value (bytes "from") (raw_fields json message.raw_data))
          (last_value (bytes "from") message.app_data))
lookup-intent_fields_example = lookup-intent_fields json message (bytes "123") (bytes "from")

abbrev idle : Listener
idle = record { persistent_ids = []; acked = []; logins = [] }

on_item-Handled_example :
    Handled config message 4 true idle state
      (on_item config (item (data_message message)) 4 true (idle, state))
on_item-Handled_example = on_item-Handled config message 4 true idle state

-- A message for another app.
abbrev beside : Call
beside =
    enqueue_fcm install (bytes "org.other") Transport.web_socket (some (bytes "p1")) (bytes "x")

untouched : touches install app beside ≡ false
unfolding ◌=?◌
untouched = refl

unaffected : Spares config (calls_database beside)
unaffected = step-Spares config beside untouched

-- A connection that fails, one that brings a message twice, and another.
abbrev attempts : List Attempt
attempts =
    connection_failed (calls_database beside)
    ∷ connected
        (next (item (data_message message)) 4 true
          ∷ next (item (data_message message)) 5 false
          ∷ [])
        (λ s. s)
    ∷ connected
        (elsewhere (calls_database beside) ∷ next (item heartbeat) 1 true ∷ next ended 1 true ∷ [])
        (λ s. s)
    ∷ []

empty-AcksBounded : AcksBounded state.tables
empty-AcksBounded i a = omega arith

run_listener-InStep_example : InStep config (run_listener config attempts state).1
run_listener-InStep_example = run_listener-InStep config attempts state refl empty-AcksBounded (
  unaffected,
  (((tt, (tt, tt)), (λ s b. (refl, b))), (((unaffected, (tt, (tt, tt))), (λ s b. (refl, b))), tt)),
)

run_listener-logins_example :
    All
      (λ ids. check_history ids ≡ refuse_if (any is_too_long ids) invalid_history)
      (run_listener config attempts state).1.0.logins
run_listener-logins_example = run_listener-logins config attempts state
