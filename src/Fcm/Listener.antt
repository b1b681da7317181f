-- ===== src/Fcm/Listener.antt =====
-- crates/bridge/src/fcm.rs: `run_listener`, by what it meets: requests to stop, connections that
-- fail, and the items that a connection gives.
use pushcompat.Prelude.{ℕ, List, [], ◌∷◌, Option, Bool, true, false, Text}
use pushcompat.Exec.{Outcome, ok, failed}
use pushcompat.Mcs.Data.{DataMessage}
use pushcompat.Mcs.Stream.{Item, item, error, ended, heartbeat, data_message, other}
use pushcompat.Fcm.Replay.{push_id, restored_ids}
use pushcompat.Fcm.Intent.{Json, build_intent_payload}
use pushcompat.Bridge.State.{AppState, DeliveryTarget, call, query}
use pushcompat.Bridge.Delivery.{enqueue_fcm}

-- The locals of the loop. `acked` has the stream ids that were acknowledged, the newest first: its
-- first is `last_acked_stream_id`. `logins` has the ids that each login sent, the newest first.
pub record Listener : Type 0 where
  pub persistent_ids : List Text
  pub acked : List ℕ
  pub logins : List (List Text)

-- The arguments of `run_listener` that stay.
pub record Config : Type 0 where
  pub install_id : Text
  pub app_id : Text
  pub sender_id : Text
  pub target : DeliveryTarget
  pub json : Json

-- What `select!` yields: a stop, or the next item with the stream's counter, and whether a write
-- to the stream succeeds. Between two of them other tasks change the state.
pub data Event : Type 0 where
  stop : Event
  next : Item DataMessage → ℕ → Bool → Event
  elsewhere : (AppState → AppState) → Event

-- Whether the loop over items goes on.
pub data Flow : Type 0 where
  listening reconnect stopped : Flow

abbrev pub World : Type 0
World = Listener × AppState

abbrev pub acknowledge : ℕ → Bool → Listener → AppState → Flow × World
acknowledge stream_id true l s = (listening, (record l { acked = stream_id ∷ l.acked }, s))
acknowledge stream_id false l s = (reconnect, (l, s))

abbrev pub note_id : Option Text → Listener → Listener
note_id pid l = record l { persistent_ids = push_id pid l.persistent_ids }

-- A message is acknowledged and its id noted only once it is stored.
abbrev pub after_enqueue :
    DataMessage → ℕ → Bool → Listener → Outcome (Option ℕ) × AppState → Flow × World
after_enqueue message stream_id written l (ok id, s) =
    acknowledge stream_id written (note_id message.persistent_id l) s
after_enqueue message stream_id written l (failed, s) = (reconnect, (l, s))

unfoldable pub on_item : Config → Item DataMessage → ℕ → Bool → World → Flow × World
unfolding push_id enqueue_fcm build_intent_payload
on_item c (item (data_message message)) stream_id written (l, s) =
    after_enqueue message stream_id written l (
      enqueue_fcm c.install_id c.app_id c.target message.persistent_id
        (build_intent_payload c.json message c.sender_id) s)
on_item c (item heartbeat) stream_id written (l, s) = acknowledge stream_id written l s
on_item c (item (other tag body)) stream_id written (l, s) = (listening, (l, s))
on_item c (error e) stream_id written (l, s) = (reconnect, (l, s))
on_item c ended stream_id written (l, s) = (reconnect, (l, s))

unfoldable pub on_event : Config → Event → World → Flow × World
unfolding on_item
on_event c stop w = (stopped, w)
on_event c (next i stream_id written) w = on_item c i stream_id written w
on_event c (elsewhere f) (l, s) = (listening, (l, f s))

-- A loop whose rounds say whether it goes on after them.
abbrev pub go_on : (World → Flow × World) → Flow × World → Flow × World
go_on rest (listening, w) = rest w
go_on rest (reconnect, w) = (reconnect, w)
go_on rest (stopped, w) = (stopped, w)

-- The inner loop over the events of one connection, as far as they are given.
unfoldable pub listen : Config → List Event → World → Flow × World
unfolding on_event
listen c [] w = (listening, w)
listen c (e ∷ es) w = go_on (listen c es) (on_event c e w)

-- One round of the outer loop: a stop that is pending, a failed connection, or a connection. Each
-- ends with a wait, in which other tasks change the state.
pub data Attempt : Type 0 where
  stop_pending : Attempt
  connection_failed : (AppState → AppState) → Attempt
  connected : List Event → (AppState → AppState) → Attempt

-- The ids that `connect` is called with.
abbrev pub log_in : World → World
log_in (l, s) = (record l { logins = l.persistent_ids ∷ l.logins }, s)

abbrev pub meanwhile : (AppState → AppState) → World → World
meanwhile f (l, s) = (l, f s)

abbrev pub wait : (AppState → AppState) → Flow × World → Flow × World
wait f (listening, w) = (listening, w)
wait f (reconnect, w) = (reconnect, meanwhile f w)
wait f (stopped, w) = (stopped, w)

unfoldable pub on_attempt : Config → Attempt → World → Flow × World
unfolding listen
on_attempt c stop_pending w = (stopped, w)
on_attempt c (connection_failed f) w = (reconnect, meanwhile f (log_in w))
on_attempt c (connected es f) w = wait f (listen c es (log_in w))

abbrev pub try_again : (World → Flow × World) → Flow × World → Flow × World
try_again rest (listening, w) = (listening, w)
try_again rest (reconnect, w) = rest w
try_again rest (stopped, w) = (stopped, w)

unfoldable pub outer_loop : Config → List Attempt → World → Flow × World
unfolding on_attempt
outer_loop c [] w = (reconnect, w)
outer_loop c (a ∷ attempts) w = try_again (outer_loop c attempts) (on_attempt c a w)

-- `unwrap_or_default`: a failed query counts as an empty list.
abbrev pub restored : Outcome (List Text) × AppState → World
restored (ok ids, s) = (record { persistent_ids = ids; acked = []; logins = [] }, s)
restored (failed, s) = (record { persistent_ids = []; acked = []; logins = [] }, s)

unfoldable pub run_listener : Config → List Attempt → AppState → Flow × World
unfolding restored_ids call outer_loop
run_listener c attempts s =
    outer_loop c attempts (restored (call (query (restored_ids c.install_id c.app_id)) s))
