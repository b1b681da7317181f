-- ===== src/Fcm/Logins.antt =====
-- crates/bridge/src/fcm.rs and crates/listener/src/gcm.rs: a listener never sends more ids than a
-- login may carry.
use pushcompat.Prelude.{
  ℕ, zero, suc, ◌≤◌, ◌≡◌, List, [], ◌∷◌, ◌++◌, Option, none, some, Bool, true, false, Text, any,
  take, length, length-append, arith, All, All-mono,
}
use pushcompat.Mcs.Stream.{item, error, ended, heartbeat, data_message, other}
use pushcompat.Db.Tables.{Tables}
use pushcompat.Db.Acks.{max_ack_history, recent_acks}
use pushcompat.Db.AckOrder.{ids_of}
use pushcompat.Bridge.State.{AppState, call, call_with, query}
use pushcompat.Gcm.Result.{refuse_if}
use pushcompat.Gcm.Registration.{check_history, is_too_long, invalid_history}
use pushcompat.Fcm.Replay.{remove_first, push_id, restored_ids}
use pushcompat.Fcm.Memory.{length-reverse}
use pushcompat.Fcm.Intent.{build_intent_payload}
use pushcompat.Fcm.Stored.{enqueue_fcm_cases}
use pushcompat.Fcm.Runs.{EventOk, AttemptOk, outer_loop-Reaches}
use pushcompat.Fcm.Listener.{
  Listener, Config, Event, stop, next, elsewhere, World, acknowledge, after_enqueue, on_item,
  on_event, Attempt, stop_pending, connection_failed, connected, outer_loop, restored, run_listener,
}

abbrev Short : List Text → Type 0
Short ids = length ids ≤ max_ack_history

-- The list is short, and so were those of the logins.
abbrev Bounded : World → Type 0
Bounded (l, s) = Short l.persistent_ids × All Short l.logins

length-take {ℓ} : {A : Type ℓ} (n : ℕ) (xs : List A) → length (take n xs) ≤ n
length-take zero xs = omega arith
length-take (suc n) [] = omega arith
length-take (suc n) (x ∷ xs) = omega (arith, length-take n xs)

restored-Short : (i a : Text) (t : Tables) → Short (restored_ids i a t)
unfolding restored_ids recent_acks
restored-Short i a t = omega (
  arith,
  length-reverse (take max_ack_history (ids_of i a t.acked_messages)),
  length-take max_ack_history (ids_of i a t.acked_messages),
)

length-remove_first : (xs : List Text) (n : ℕ) → length xs ≤ suc n → length (remove_first xs) ≤ n
length-remove_first [] n h = omega arith
length-remove_first (x ∷ xs) n h = omega arith

push_id-Short : (pid : Option Text) (ids : List Text) → Short ids → Short (push_id pid ids)
unfolding push_id
push_id-Short none ids h = h
push_id-Short (some pid) ids h =
    ground
      (arith, length-append ids (pid ∷ []), length-remove_first (ids ++ pid ∷ []) max_ack_history)

acknowledge-Bounded :
    (stream_id : ℕ) (written : Bool) (l : Listener) (s : AppState)
    → Bounded (l, s)
    → Bounded (acknowledge stream_id written l s).1
acknowledge-Bounded stream_id true l s h = h
acknowledge-Bounded stream_id false l s h = h

abbrev Anything : (AppState → AppState) → Type 0
Anything f = Unit

on_event-Bounded :
    (c : Config) (e : Event) (w : World)
    → EventOk Anything e
    → Bounded w
    → Bounded (on_event c e w).1
unfolding on_event on_item
on_event-Bounded c stop w o h = h
on_event-Bounded c (next (item (data_message message)) stream_id written) (l, s) o (h, k) =
    enqueue_fcm_cases c.install_id c.app_id c.target message.persistent_id
      (build_intent_payload c.json message c.sender_id)
      (λ x. Bounded (after_enqueue message stream_id written l x).1) s (λ f v t. (h, k))
      (λ f o v t.
        acknowledge-Bounded stream_id written _ v
          (push_id-Short message.persistent_id l.persistent_ids h, k))
on_event-Bounded c (next (item heartbeat) stream_id written) (l, s) o h =
    acknowledge-Bounded stream_id written l s h
on_event-Bounded c (next (item (other tag body)) stream_id written) (l, s) o h = h
on_event-Bounded c (next (error e) stream_id written) (l, s) o h = h
on_event-Bounded c (next ended stream_id written) (l, s) o h = h
on_event-Bounded c (elsewhere f) w o h = h

anything : (attempts : List Attempt) → All (AttemptOk Anything) attempts
anything [] = tt
anything (stop_pending ∷ attempts) = (tt, anything attempts)
anything (connection_failed f ∷ attempts) = (tt, anything attempts)
anything (connected es f ∷ attempts) = ((events es, tt), anything attempts)
  where
    events : (es : List Event) → All (EventOk Anything) es
    events [] = tt
    events (stop ∷ es) = (tt, events es)
    events (next i n b ∷ es) = (tt, events es)
    events (elsewhere f ∷ es) = (tt, events es)

restored-Bounded :
    (i a : Text) (s : AppState) (faults : List Bool)
    → Bounded (restored (call_with (query (restored_ids i a)) s faults))
restored-Bounded i a s [] = (restored-Short i a s.tables, tt)
restored-Bounded i a s (true ∷ faults) = (omega arith, tt)
restored-Bounded i a s (false ∷ faults) = (restored-Short i a s.tables, tt)

checked-Short :
    (ids : List Text)
    → Short ids
    → check_history ids ≡ refuse_if (any is_too_long ids) invalid_history
unfolding check_history
checked-Short ids h = ground arith

-- Whatever a run of a listener meets, none of its logins is refused for the number of the ids that
-- it sends: the check on them comes out by their lengths alone.
pub run_listener-logins :
    (c : Config) (attempts : List Attempt) (s : AppState)
    → All
        (λ ids. check_history ids ≡ refuse_if (any is_too_long ids) invalid_history)
        (run_listener c attempts s).1.0.logins
unfolding run_listener call
run_listener-logins c attempts s =
    let start = restored (call (query (restored_ids c.install_id c.app_id)) s) in
    All-mono Short _ checked-Short (outer_loop c attempts start).1.0.logins
      (outer_loop-Reaches c Bounded Anything (on_event-Bounded c) (λ w h. (h.0, (h.0, h.1)))
        (λ f w o h. h) attempts start (anything attempts)
        (restored-Bounded c.install_id c.app_id s s.faults)).1
