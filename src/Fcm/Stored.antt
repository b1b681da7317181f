-- ===== src/Fcm/Stored.antt =====
-- crates/bridge/src/fcm.rs and crates/bridge/src/delivery.rs: a listener acknowledges a message only
-- once it is stored.
use pushcompat.Prelude.{
  ℕ, ◌≡◌, refl, ◌∙◌, ap, ◌⊎◌, inl, inr, List, [], ◌∷◌, Option, none, some, Bool, true, false, Text,
  if◌then◌else◌,
}
use pushcompat.Exec.{Outcome, ok, failed, after}
use pushcompat.Mcs.Data.{DataMessage}
use pushcompat.Mcs.Stream.{item, data_message}
use pushcompat.Db.Tables.{Tables}
use pushcompat.Db.Enqueue.{Enqueued, queued, skipped, enqueue_fcm_message}
use pushcompat.Db.Insertion.{is_new, enqueue_fcm_message_if}
use pushcompat.Bridge.State.{AppState, DeliveryTarget, unified_push, web_socket, call, call_with}
use pushcompat.Bridge.Delivery.{enqueue_fcm, transport, wake_target, wake_queued}
use pushcompat.Fcm.Replay.{push_id}
use pushcompat.Fcm.Intent.{build_intent_payload}
use pushcompat.Fcm.Listener.{
  Listener, Config, Flow, listening, reconnect, World, after_enqueue, on_item,
}

wake_target-tables :
    (i : Text) (target : DeliveryTarget) (s : AppState) → (wake_target i target s).tables ≡ s.tables
unfolding wake_target
wake_target-tables i (unified_push endpoint) s = refl
wake_target-tables i web_socket s = refl

first_of_if :
    (b : Bool) (x y : Enqueued × Tables) → (if b then x else y).0 ≡ (if b then x.0 else y.0)
first_of_if true x y = refl
first_of_if false x y = refl

-- Whether the next call of the database fails.
abbrev pub next_fails : AppState → Bool
next_fails s = first_or_false s.faults
  where
    first_or_false : List Bool → Bool
    first_or_false [] = false
    first_or_false (b ∷ bs) = b

-- A call of the database that fails, and one that runs.
call_fails {ℓ} :
    {A : Type 0} (P : Outcome A × AppState → Type ℓ) (f : Tables → A × Tables) (s : AppState)
    → ((fs : List Bool) → next_fails s ≡ true → P (failed, record s { faults = fs }))
    → ((fs : List Bool)
        → next_fails s ≡ false
        → P (ok (f s.tables).0, record s { tables = (f s.tables).1; faults = fs }))
    → P (call f s)
unfolding call
call_fails P f s bad good = by_faults s.faults refl
  where
    by_faults : (faults : List Bool) → s.faults ≡ faults → P (call_with f s faults)
    by_faults [] e = good s.faults (rw e refl)
    by_faults (true ∷ fs) e = bad fs (rw e refl)
    by_faults (false ∷ fs) e = good fs (rw e refl)

-- What `enqueue_fcm` comes to: a failure that leaves the tables, or the insertion.
module _ {ℓ} (i a : Text) (target : DeliveryTarget) (pid : Option Text) (body : Text) where
  abbrev stored : AppState → Tables
  stored s = (enqueue_fcm_message i a (transport target) pid body s.tables).1

  woken :
      (P : Outcome (Option ℕ) × AppState → Type ℓ) (s u : AppState) (id : ℕ)
      → ((o : Option ℕ) (v : AppState) → v.tables ≡ stored s → P (ok o, v))
      → u.tables ≡ stored s
      → (b : Bool) → (e : Enqueued) → e ≡ (if b then queued id else skipped)
      → P (wake_queued i target e u)
  woken P s u id good k true e h =
      rw h (good (some id) (wake_target i target u) (wake_target-tables i target u ∙ k))
  woken P s u id good k false e h = rw h (good none u k)

  pub enqueue_fcm_cases :
      (P : Outcome (Option ℕ) × AppState → Type ℓ) (s : AppState)
      → (next_fails s ≡ true → (v : AppState) → v.tables ≡ s.tables → P (failed, v))
      → (next_fails s ≡ false → (o : Option ℕ) (v : AppState) → v.tables ≡ stored s → P (ok o, v))
      → P (enqueue_fcm i a target pid body s)
  unfolding enqueue_fcm
  enqueue_fcm_cases P s bad good =
      let (id, e) = enqueue_fcm_message_if i a (transport target) pid body s.tables in
      call_fails (λ x. P (after (wake_queued i target) x))
        (enqueue_fcm_message i a (transport target) pid body) s
        (λ fs b. bad b (record s { faults = fs }) refl)
        (λ fs b.
          woken P s (record s { tables = stored s; faults = fs }) id (good b) refl
            (is_new i a pid body s.tables)
            (enqueue_fcm_message i a (transport target) pid body s.tables).0
            (ap (λ x. x.0) e ∙ first_of_if (is_new i a pid body s.tables) _ _))

-- How a listener that held `l` stands after a message that the state `s` met: where the call of the
-- database fails, it gives the connection up with nothing done; where it runs, the message is in the
-- tables and its id among the listener's, and it is acknowledged, unless the write fails.
abbrev pub Handled : Config → DataMessage → ℕ → Bool → Listener → AppState → Flow × World → Type 0
Handled c message stream_id written l s (flow, (l', s')) =
    ((next_fails s ≡ true) × (flow ≡ reconnect) × (l' ≡ l) × (s'.tables ≡ s.tables))
    ⊎ ((next_fails s ≡ false)
        × (flow ≡ (if written then listening else reconnect))
        × (l'.acked ≡ (if written then stream_id ∷ l.acked else l.acked))
        × (l'.persistent_ids ≡ push_id message.persistent_id l.persistent_ids)
        × (s'.tables
            ≡ (enqueue_fcm_message c.install_id c.app_id (transport c.target) message.persistent_id
                (build_intent_payload c.json message c.sender_id) s.tables).1))

-- A data message ends the connection, with no acknowledgement sent, no id noted and the tables as
-- they were, exactly if the database fails. Else it is enqueued with the payload of its intent, its
-- id is noted, and then its stream id is acknowledged; if that write fails, the connection ends.
pub on_item-Handled :
    (c : Config) (message : DataMessage) (stream_id : ℕ) (written : Bool) (l : Listener)
    (s : AppState)
    → Handled c message stream_id written l s
        (on_item c (item (data_message message)) stream_id written (l, s))
unfolding on_item
on_item-Handled c message stream_id true l s =
    enqueue_fcm_cases c.install_id c.app_id c.target message.persistent_id
      (build_intent_payload c.json message c.sender_id)
      (λ x. Handled c message stream_id true l s (after_enqueue message stream_id true l x)) s
      (λ b v e. inl (b, refl, refl, e)) (λ b o v e. inr (b, refl, refl, refl, e))
on_item-Handled c message stream_id false l s =
    enqueue_fcm_cases c.install_id c.app_id c.target message.persistent_id
      (build_intent_payload c.json message c.sender_id)
      (λ x. Handled c message stream_id false l s (after_enqueue message stream_id false l x)) s
      (λ b v e. inl (b, refl, refl, e)) (λ b o v e. inr (b, refl, refl, refl, e))
