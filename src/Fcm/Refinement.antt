-- ===== src/Fcm/Refinement.antt =====
-- crates/bridge/src/fcm.rs: over a whole run of a listener, its memory is that of the database.
use pushcompat.Prelude.{
  ℕ, ◌≡◌, refl, sym, ap, subst, ◌∙◌, List, [], ◌∷◌, Bool, true, false, not, All,
}
use pushcompat.Mcs.Data.{DataMessage}
use pushcompat.Mcs.Stream.{item, error, ended, heartbeat, data_message, other}
use pushcompat.Db.AckBounds.{acks_of, AcksBounded, enqueue_fcm-AcksBounded}
use pushcompat.Bridge.State.{AppState, call, call_with, query}
use pushcompat.Bridge.Delivery.{transport}
use pushcompat.Fcm.Replay.{push_id, restored_ids}
use pushcompat.Fcm.Memory.{push_id-enqueue, restored_same}
use pushcompat.Fcm.Intent.{build_intent_payload}
use pushcompat.Fcm.Stored.{enqueue_fcm_cases}
use pushcompat.Fcm.Runs.{EventOk, AttemptOk, outer_loop-Reaches}
use pushcompat.Fcm.Listener.{
  Listener, Config, Event, stop, next, elsewhere, Flow, World, acknowledge, after_enqueue, on_item,
  on_event, Attempt, meanwhile, restored, run_listener,
}

module _ (c : Config) where
  -- The ids in memory are those that the database gives back.
  abbrev pub InStep : World → Type 0
  InStep (l, s) =
      (l.persistent_ids ≡ restored_ids c.install_id c.app_id s.tables) × AcksBounded s.tables

  -- What other tasks do leaves the history of this app.
  abbrev pub Spares : (AppState → AppState) → Type 0
  Spares f =
      (s : AppState)
      → AcksBounded s.tables
      → (acks_of c.install_id c.app_id (f s).tables.acked_messages
          ≡ acks_of c.install_id c.app_id s.tables.acked_messages)
        × AcksBounded (f s).tables

  abbrev Reaches : Flow × World → Type 0
  Reaches x = InStep x.1

  meanwhile-InStep :
      (f : AppState → AppState) (w : World) → Spares f → InStep w → InStep (meanwhile f w)
  meanwhile-InStep f (l, s) spares (e, b) =
      let (same, bounded) = spares s b in
      (e ∙ sym (restored_same c.install_id c.app_id s.tables (f s).tables same), bounded)

  acknowledge-InStep :
      (stream_id : ℕ) (written : Bool) (l : Listener) (s : AppState)
      → InStep (l, s)
      → Reaches (acknowledge stream_id written l s)
  acknowledge-InStep stream_id true l s h = h
  acknowledge-InStep stream_id false l s h = h

  message-InStep :
      (message : DataMessage) (stream_id : ℕ) (written : Bool) (l : Listener) (s : AppState)
      → InStep (l, s)
      → Reaches (on_item c (item (data_message message)) stream_id written (l, s))
  unfolding on_item
  message-InStep message stream_id written l s (e, b) =
      let body = build_intent_payload c.json message c.sender_id in
      enqueue_fcm_cases c.install_id c.app_id c.target message.persistent_id body
        (λ x. Reaches (after_enqueue message stream_id written l x)) s
        (λ f v t.
          (e ∙ sym (ap (restored_ids c.install_id c.app_id) t), subst AcksBounded (sym t) b))
        (λ f o v t. acknowledge-InStep stream_id written _ v (
          ap (push_id message.persistent_id) e
              ∙ push_id-enqueue c.install_id c.app_id (transport c.target) message.persistent_id
                  body s.tables b
              ∙ sym (ap (restored_ids c.install_id c.app_id) t),
          subst AcksBounded (sym t) (
              enqueue_fcm-AcksBounded c.install_id c.app_id (transport c.target)
                message.persistent_id body s.tables b),
        ))

  on_event-InStep : (e : Event) (w : World) → EventOk Spares e → InStep w → Reaches (on_event c e w)
  unfolding on_event on_item
  on_event-InStep stop w spares h = h
  on_event-InStep (next (item (data_message message)) stream_id written) (l, s) spares h =
      message-InStep message stream_id written l s h
  on_event-InStep (next (item heartbeat) stream_id written) (l, s) spares h =
      acknowledge-InStep stream_id written l s h
  on_event-InStep (next (item (other tag body)) stream_id written) (l, s) spares h = h
  on_event-InStep (next (error e) stream_id written) (l, s) spares h = h
  on_event-InStep (next ended stream_id written) (l, s) spares h = h
  on_event-InStep (elsewhere f) w spares h = meanwhile-InStep f w spares h

-- The next call of the database does not fail.
abbrev pub no_fault : List Bool → Bool
no_fault [] = true
no_fault (fault ∷ faults) = not fault

query_with-InStep :
    (c : Config) (s : AppState) (faults : List Bool)
    → no_fault faults ≡ true
    → AcksBounded s.tables
    → InStep c (restored (call_with (query (restored_ids c.install_id c.app_id)) s faults))
query_with-InStep c s [] quiet b = (refl, b)
query_with-InStep c s (true ∷ faults) quiet b = cc
query_with-InStep c s (false ∷ faults) quiet b = (refl, b)

restored-InStep :
    (c : Config) (s : AppState)
    → no_fault s.faults ≡ true
    → AcksBounded s.tables
    → InStep c (restored (call (query (restored_ids c.install_id c.app_id)) s))
unfolding call
restored-InStep c s quiet b = query_with-InStep c s s.faults quiet b

-- A listener whose query for its ids succeeds at the start holds, at any point of its run, the ids
-- that the database would give it back then, whatever the connections bring and whatever fails,
-- where no app has more than 500 acknowledged ids at the start and the other tasks leave the history
-- of this app.
pub run_listener-InStep :
    (c : Config) (attempts : List Attempt) (s : AppState)
    → no_fault s.faults ≡ true
    → AcksBounded s.tables
    → All (AttemptOk (Spares c)) attempts
    → InStep c (run_listener c attempts s).1
unfolding run_listener
run_listener-InStep c attempts s quiet b spares =
    outer_loop-Reaches c (InStep c) (Spares c) (on_event-InStep c) (λ w h. h) (meanwhile-InStep c)
      attempts (restored (call (query (restored_ids c.install_id c.app_id)) s)) spares
      (restored-InStep c s quiet b)
