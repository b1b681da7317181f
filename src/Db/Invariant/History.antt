-- ===== src/Db/Invariant/History.antt =====
-- crates/bridge/src/db.rs, crates/bridge/sql/schema.sql: every call keeps every constraint.
use pushcompat.Prelude.{
  ℕ, ◌==◌, Option, none, some, ◌≡◌, refl, List, [], ◌∷◌, Text, any, Bool-cases, inl, inr, arith,
}
use pushcompat.Db.Tables.{Tables, empty_tables, Registration, OutboxRow}
use pushcompat.Db.Connectors.{
  stale_tokens, register_unified_push, owned_by, queued_for, has_connector, for_connector,
  delete_connector, delete_connectors, unregister_unified_push,
  delete_stale_unified_push_registrations,
}
use pushcompat.Types.Transport.{Transport}
use pushcompat.Db.Registrations.{
  save_registration, save_fcm_session, delete_pairs, delete_registration, is_fcm_of, prune_stale,
  stale_pairs,
}
use pushcompat.Db.Installations
use pushcompat.Db.Outbox.{
  is_socket_message, is_socket_through, ack_socket_message, ack_socket_through,
  delete_outbox_message, defer_outbox_message,
}
use pushcompat.Db.Enqueue
use pushcompat.Db.Calls.{
  Call, claim, refresh, touch, save, forget, prune, save_session, register, unregister, retain,
  enqueue_fcm, enqueue_push, ack, ack_through, finish, defer, elapse, step, run,
}
use pushcompat.Db.Invariant.Outbox.{
  OutboxInv, delete-OutboxInv, defer-OutboxInv, enqueue_fcm-OutboxInv, enqueue_push-OutboxInv,
  enqueue_fcm_cases,
}
use pushcompat.Db.Invariant.Keys

-- The schema's constraints: ids that rise up to the sequence number, one row to a persistent id
-- and to each primary key, and one to an endpoint.
pub record WellFormed (t : Tables) : Type 0 where
  pub outbox : OutboxInv t
  pub keys : Keys.KeysInv t

same_outbox-OutboxInv :
    {s t : Tables} → s.outbox ≡ t.outbox → s.outbox_seq ≡ t.outbox_seq → OutboxInv t → OutboxInv s
same_outbox-OutboxInv e f v = record { rising = rw (e, f) v.rising; unique = rw e v.unique }

-- The outbox and its sequence number under the calls for the other tables.
module _ (t : Tables) where
  claim_outbox :
      (i h s : Text)
      → let u = (Installations.claim_installation i h s t).1 in
        (u.outbox ≡ t.outbox) × (u.outbox_seq ≡ t.outbox_seq)
  unfolding Installations.claim_installation
  claim_outbox i h s = ground arith

  save_outbox :
      (reg : Registration)
      → let u = (save_registration reg t).1 in (u.outbox ≡ t.outbox) × (u.outbox_seq ≡ t.outbox_seq)
  unfolding save_registration
  save_outbox reg = ground arith

  register_outbox :
      (i a c e : Text) (k : Option Text)
      → let u = (register_unified_push i a c e k t).1 in
        (u.outbox ≡ t.outbox) × (u.outbox_seq ≡ t.outbox_seq)
  unfolding register_unified_push
  register_outbox i a c e k = ground arith

delete_pairs-OutboxInv :
    (pairs : List (Text × Text)) (t : Tables) → OutboxInv t → OutboxInv (delete_pairs pairs t)
unfolding delete_pairs delete_registration
delete_pairs-OutboxInv [] t v = v
delete_pairs-OutboxInv ((i, a) ∷ pairs) t v =
    delete_pairs-OutboxInv pairs (delete_registration i a t)
      (same_outbox-OutboxInv refl refl (delete-OutboxInv (is_fcm_of i a) t v))

unregister-WellFormed :
    (i a c : Text) (t : Tables) → WellFormed t → WellFormed (unregister_unified_push i a c t).1
unfolding unregister_unified_push
unregister-WellFormed i a c t v =
    elim (Bool-cases (any (owned_by i a c) t.unified_push_registrations)) [
      | inl e ↦
          rw (e, unregister_unified_push)
            (record {
              outbox =
                  same_outbox-OutboxInv refl refl (delete-OutboxInv (queued_for i a c) t v.outbox);
              keys = Keys.delete_connectors-KeysInv (owned_by i a c) (queued_for i a c) t v.keys;
            })
      | inr e ↦ rw (e, unregister_unified_push) v
    ]

delete_connectors-WellFormed :
    (i : Text) (tokens : List Text) (n : ℕ) (t : Tables)
    → WellFormed t
    → WellFormed (delete_connectors i tokens n t).1
unfolding delete_connectors delete_connector
delete_connectors-WellFormed i [] n t v = v
delete_connectors-WellFormed i (c ∷ tokens) n t v =
    delete_connectors-WellFormed i tokens _ (delete_connector i c t) (record {
      outbox = same_outbox-OutboxInv refl refl (delete-OutboxInv (for_connector i c) t v.outbox);
      keys = Keys.delete_connectors-KeysInv (has_connector i c) (for_connector i c) t v.keys;
    })

push_keys :
    (t : Tables) (rows : List OutboxRow) (n : ℕ)
    → Keys.KeysInv t
    → Keys.KeysInv (record t { outbox = rows; outbox_seq = n })
push_keys t rows n v = assumption

elapsed : (t : Tables) (n : ℕ) → Keys.KeysInv t → Keys.KeysInv (record t { now = n })
elapsed t n v = assumption

-- A call that only deletes rows of the outbox, or defers them.
of_outbox :
    (t : Tables) (rows : List OutboxRow)
    → Keys.KeysInv t
    → Keys.KeysInv (record t { outbox = rows })
of_outbox t rows v = assumption

skipped_id : (t : Tables) → Keys.KeysInv t → Keys.KeysInv (Enqueue.skip_id t)
skipped_id t v = assumption

enqueue_fcm-KeysInv :
    (i a : Text) (via : Transport) (pid : Option Text) (body : Text) (t : Tables)
    → Keys.KeysInv t
    → Keys.KeysInv (Enqueue.enqueue_fcm_message i a via pid body t).1
unfolding Enqueue.insert_fcm
enqueue_fcm-KeysInv i a via pid body t v =
    enqueue_fcm_cases Keys.KeysInv i a via pid body t v (Keys.remember-KeysInv i a pid t v)
      (Keys.remember-KeysInv i a pid _ (inserted pid))
  where
    inserted : (p : Option Text) → Keys.KeysInv (Enqueue.insert_fcm i a via p body t)
    inserted none = unfold Enqueue.insert_fcm in assumption
    inserted (some p) = elim (Bool-cases (any (Enqueue.has_persistent_id i a p) t.outbox)) [
      | inl e ↦ rw (Enqueue.insert_fcm, e) (skipped_id t v)
      | inr e ↦ rw (Enqueue.insert_fcm, e) (unfold Enqueue.append_row in assumption)
    ]

-- Every call keeps the constraints of the schema.
pub step-WellFormed : (c : Call) (t : Tables) → WellFormed t → WellFormed (step c t)
unfolding step
step-WellFormed (claim i h s) t v = record {
  outbox = same_outbox-OutboxInv (claim_outbox t i h s).0 (claim_outbox t i h s).1 v.outbox;
  keys = Keys.claim-KeysInv i h s t v.keys;
}
step-WellFormed (refresh i s) t v =
    unfold Installations.refresh_secret in
    record {
      outbox = same_outbox-OutboxInv refl refl v.outbox;
      keys = Keys.refresh-KeysInv i s t v.keys;
    }
step-WellFormed (touch i) t v =
    unfold Installations.touch_installation in
    record {
      outbox = same_outbox-OutboxInv refl refl v.outbox;
      keys = Keys.touch-KeysInv i t v.keys;
    }
step-WellFormed (save reg) t v = record {
  outbox = same_outbox-OutboxInv (save_outbox t reg).0 (save_outbox t reg).1 v.outbox;
  keys = Keys.save-KeysInv reg t v.keys;
}
step-WellFormed (forget i a) t v =
    unfold delete_registration in
    record {
      outbox = same_outbox-OutboxInv refl refl (delete-OutboxInv (is_fcm_of i a) t v.outbox);
      keys = Keys.delete_registration-KeysInv i a t v.keys;
    }
step-WellFormed (prune days) t v = record {
  outbox = unfold prune_stale in delete_pairs-OutboxInv (stale_pairs days t) t v.outbox;
  keys = Keys.prune-KeysInv days t v.keys;
}
step-WellFormed (save_session i a d) t v =
    unfold save_fcm_session in
    record {
      outbox = same_outbox-OutboxInv refl refl v.outbox;
      keys = Keys.save_session-KeysInv i a d t v.keys;
    }
step-WellFormed (register i a c e k) t v = record {
  outbox =
      same_outbox-OutboxInv (register_outbox t i a c e k).0 (register_outbox t i a c e k).1
        v.outbox;
  keys = Keys.register-KeysInv i a c e k t v.keys;
}
step-WellFormed (unregister i a c) t v = unregister-WellFormed i a c t v
step-WellFormed (retain i cs) t v =
    unfold delete_stale_unified_push_registrations in
    delete_connectors-WellFormed i (stale_tokens i cs t) 0 t v
step-WellFormed (enqueue_fcm i a via pid body) t v = record {
  outbox = enqueue_fcm-OutboxInv i a via pid body t v.outbox;
  keys = enqueue_fcm-KeysInv i a via pid body t v.keys;
}
step-WellFormed (enqueue_push i a c body) t v = record {
  outbox = enqueue_push-OutboxInv i a c body t v.outbox;
  keys = unfold Enqueue.enqueue_unified_push_message Enqueue.append_row in push_keys t _ _ v.keys;
}
step-WellFormed (ack i id) t v =
    unfold ack_socket_message in
    record {
      outbox = delete-OutboxInv (is_socket_message i id) t v.outbox;
      keys = of_outbox t _ v.keys;
    }
step-WellFormed (ack_through i cursor) t v =
    unfold ack_socket_through in
    record {
      outbox = delete-OutboxInv (is_socket_through i cursor) t v.outbox;
      keys = of_outbox t _ v.keys;
    }
step-WellFormed (finish id) t v =
    unfold delete_outbox_message in
    record {
      outbox = delete-OutboxInv (λ row. row.id == id) t v.outbox;
      keys = of_outbox t _ v.keys;
    }
step-WellFormed (defer id seconds) t v =
    unfold defer_outbox_message in
    record { outbox = defer-OutboxInv id seconds t v.outbox; keys = of_outbox t _ v.keys }
step-WellFormed (elapse seconds) t v = record {
  outbox = same_outbox-OutboxInv refl refl v.outbox;
  keys = elapsed t _ v.keys;
}

-- Tables that satisfy the constraints of the schema satisfy them after any history of calls: the
-- outbox's ids rise up to the sequence number, no two of its rows have one persistent id of an app,
-- and no two rows of a table have one key or one endpoint.
pub run-WellFormed : (cs : List Call) (t : Tables) → WellFormed t → WellFormed (run cs t)
unfolding run
run-WellFormed [] t v = v
run-WellFormed (c ∷ cs) t v = run-WellFormed cs (step c t) (step-WellFormed c t v)

pub empty-WellFormed : WellFormed empty_tables
empty-WellFormed = record {
  outbox = record { rising = omega arith; unique = tt };
  keys = record {
    installations = tt;
    registrations = tt;
    sessions = tt;
    acks = tt;
    connectors = tt;
    endpoints = tt;
  };
}
