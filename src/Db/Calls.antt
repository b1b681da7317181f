-- ===== src/Db/Calls.antt =====
-- crates/bridge/src/db.rs: the methods of `Database` that write, as calls that a history is made of.
-- A call runs alone: each is one closure on the connection's own thread. `elapse` is time passing.
use pushcompat.Prelude.{ℕ, ◌+◌, List, [], ◌∷◌, Option, Text}
use pushcompat.Types.Transport.{Transport}
use pushcompat.Db.Tables.{Tables, Registration}
use pushcompat.Db.Installations.{claim_installation, refresh_secret, touch_installation}
use pushcompat.Db.Registrations.{
  save_registration, delete_registration, prune_stale, save_fcm_session,
}
use pushcompat.Db.Connectors.{
  register_unified_push, unregister_unified_push, delete_stale_unified_push_registrations,
}
use pushcompat.Db.Outbox.{
  ack_socket_message, ack_socket_through, delete_outbox_message, defer_outbox_message,
}
use pushcompat.Db.Enqueue.{enqueue_fcm_message, enqueue_unified_push_message}

pub data Call : Type 0 where
  claim : Text → Text → Text → Call
  refresh : Text → Text → Call
  touch : Text → Call
  save : Registration → Call
  forget : Text → Text → Call
  prune : ℕ → Call
  save_session : Text → Text → Text → Call
  register : Text → Text → Text → Text → Option Text → Call
  unregister : Text → Text → Text → Call
  retain : Text → List Text → Call
  enqueue_fcm : Text → Text → Transport → Option Text → Text → Call
  enqueue_push : Text → Text → Text → Text → Call
  ack : Text → ℕ → Call
  ack_through : Text → ℕ → Call
  finish : ℕ → Call
  defer : ℕ → ℕ → Call
  elapse : ℕ → Call

unfoldable pub step : Call → Tables → Tables
step (claim i h s) t = (claim_installation i h s t).1
step (refresh i s) t = refresh_secret i s t
step (touch i) t = touch_installation i t
step (save reg) t = (save_registration reg t).1
step (forget i a) t = delete_registration i a t
step (prune days) t = (prune_stale days t).1
step (save_session i a d) t = save_fcm_session i a d t
step (register i a c e k) t = (register_unified_push i a c e k t).1
step (unregister i a c) t = (unregister_unified_push i a c t).1
step (retain i cs) t = (delete_stale_unified_push_registrations i cs t).1
step (enqueue_fcm i a tr pid body) t = (enqueue_fcm_message i a tr pid body t).1
step (enqueue_push i a c body) t = (enqueue_unified_push_message i a c body t).1
step (ack i id) t = (ack_socket_message i id t).1
step (ack_through i cursor) t = (ack_socket_through i cursor t).1
step (finish id) t = delete_outbox_message id t
step (defer id seconds) t = defer_outbox_message id seconds t
step (elapse seconds) t = record t { now = t.now + seconds }

unfoldable pub run : List Call → Tables → Tables
unfolding step
run [] t = t
run (c ∷ cs) t = run cs (step c t)
