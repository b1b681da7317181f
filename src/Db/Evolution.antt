-- ===== src/Db/Evolution.antt =====
-- crates/bridge/src/db.rs: all that a call can do to the outbox. A property of its rows and of the
-- sequence number that deletion, deferral and appending keep is kept by every call.
use pushcompat.Prelude.{
  ℕ, suc, ◌+◌, ◌≡◌, refl, List, [], ◌∷◌, ◌++◌, Option, none, some, Bool, Text, ◌==◌, any, delete,
  update, Bool-cases, inl, inr, arith,
}
use pushcompat.Types.Transport.{Transport}
use pushcompat.Types.MessageKind.{MessageKind}
use pushcompat.Db.Tables.{Tables, OutboxRow}
use pushcompat.Db.Installations
use pushcompat.Db.Registrations.{
  save_registration, save_fcm_session, delete_registration, delete_pairs, prune_stale, stale_pairs,
  is_fcm_of,
}
use pushcompat.Db.Connectors
use pushcompat.Db.Outbox.{
  deferred, ack_socket_message, ack_socket_through, is_socket_message, is_socket_through,
  delete_outbox_message, defer_outbox_message,
}
use pushcompat.Db.Enqueue.{
  append_row, has_persistent_id, insert_fcm, remember, enqueue_unified_push_message,
}
use pushcompat.Db.Invariant.Outbox.{enqueue_fcm_cases}
use pushcompat.Db.Calls.{
  Call, claim, refresh, touch, save, forget, prune, save_session, register, unregister, retain,
  enqueue_fcm, enqueue_push, ack, ack_through, finish, defer, elapse, step,
}

pub record OutboxRule {ℓ} (P : List OutboxRow → ℕ → Type ℓ) : Type ℓ where
  pub on_delete :
      (d : OutboxRow → Bool) (rows : List OutboxRow) (n : ℕ) → P rows n → P (delete d rows) n
  pub on_defer :
      (id at : ℕ) (rows : List OutboxRow) (n : ℕ)
      → P rows n
      → P (update (λ row. row.id == id) (deferred at) rows) n
  pub on_skip : (rows : List OutboxRow) (n : ℕ) → P rows n → P rows (suc n)
  pub on_append :
      (row : OutboxRow) (rows : List OutboxRow) (n : ℕ)
      → row.id ≡ suc n
      → P rows n
      → P (rows ++ row ∷ []) (suc n)

module _ {ℓ} {P : List OutboxRow → ℕ → Type ℓ} (rule : OutboxRule P) where
  abbrev Holds : Tables → Type ℓ
  Holds t = P t.outbox t.outbox_seq

  same_outbox :
      (t u : Tables) → u.outbox ≡ t.outbox → u.outbox_seq ≡ t.outbox_seq → Holds t → Holds u
  same_outbox t u e f h = rw (e, f) h

  append_row-Holds :
      (i a : Text) (k : MessageKind) (via : Transport) (c pid : Option Text) (body : Text)
      (t : Tables)
      → Holds t
      → Holds (append_row i a k via c pid body t)
  unfolding append_row
  append_row-Holds i a k via c pid body t h = rule.on_append _ t.outbox t.outbox_seq refl h

  insert_fcm-Holds :
      (i a : Text) (via : Transport) (pid : Option Text) (body : Text) (t : Tables)
      → Holds t
      → Holds (insert_fcm i a via pid body t)
  unfolding insert_fcm
  insert_fcm-Holds i a via none body t h =
      append_row-Holds i a MessageKind.fcm via none none body t h
  insert_fcm-Holds i a via (some pid) body t h =
      elim (Bool-cases (any (has_persistent_id i a pid) t.outbox)) [
        | inl e ↦ rw (insert_fcm, e) (rule.on_skip t.outbox t.outbox_seq h)
        | inr e ↦
            rw (insert_fcm, e) (append_row-Holds i a MessageKind.fcm via none (some pid) body t h)
      ]

  remember-Holds :
      (i a : Text) (pid : Option Text) (t : Tables) → Holds t → Holds (remember i a pid t)
  unfolding remember
  remember-Holds i a none t h = h
  remember-Holds i a (some pid) t h = h

  delete_pairs-Holds :
      (pairs : List (Text × Text)) (t : Tables) → Holds t → Holds (delete_pairs pairs t)
  unfolding delete_pairs delete_registration
  delete_pairs-Holds [] t h = h
  delete_pairs-Holds ((i, a) ∷ pairs) t h =
      delete_pairs-Holds pairs (delete_registration i a t)
        (rule.on_delete (is_fcm_of i a) t.outbox t.outbox_seq h)

  delete_connectors-Holds :
      (i : Text) (tokens : List Text) (n : ℕ) (t : Tables)
      → Holds t
      → Holds (Connectors.delete_connectors i tokens n t).1
  unfolding Connectors.delete_connectors Connectors.delete_connector
  delete_connectors-Holds i [] n t h = h
  delete_connectors-Holds i (c ∷ tokens) n t h =
      delete_connectors-Holds i tokens _ (Connectors.delete_connector i c t)
        (rule.on_delete (Connectors.for_connector i c) t.outbox t.outbox_seq h)

  unregister-Holds :
      (i a c : Text) (t : Tables) → Holds t → Holds (Connectors.unregister_unified_push i a c t).1
  unfolding Connectors.unregister_unified_push
  unregister-Holds i a c t h =
      elim (Bool-cases (any (Connectors.owned_by i a c) t.unified_push_registrations)) [
        | inl e ↦
            rw (e, Connectors.unregister_unified_push)
              (rule.on_delete (Connectors.queued_for i a c) t.outbox t.outbox_seq h)
        | inr e ↦ rw (e, Connectors.unregister_unified_push) h
      ]

  pub step-Holds : (c : Call) (t : Tables) → Holds t → Holds (step c t)
  unfolding step
  step-Holds (claim i k s) t h =
      same_outbox t (Installations.claim_installation i k s t).1
        (unfold Installations.claim_installation in ground arith)
        (unfold Installations.claim_installation in ground arith) h
  step-Holds (refresh i s) t h = unfold Installations.refresh_secret in h
  step-Holds (touch i) t h = unfold Installations.touch_installation in h
  step-Holds (save reg) t h =
      same_outbox t (save_registration reg t).1 (unfold save_registration in ground arith)
        (unfold save_registration in ground arith) h
  step-Holds (forget i a) t h =
      unfold delete_registration in (rule.on_delete (is_fcm_of i a) t.outbox t.outbox_seq h)
  step-Holds (prune days) t h = unfold prune_stale in delete_pairs-Holds (stale_pairs days t) t h
  step-Holds (save_session i a d) t h = unfold save_fcm_session in h
  step-Holds (register i a c e k) t h =
      same_outbox t (Connectors.register_unified_push i a c e k t).1
        (unfold Connectors.register_unified_push in ground arith)
        (unfold Connectors.register_unified_push in ground arith) h
  step-Holds (unregister i a c) t h = unregister-Holds i a c t h
  step-Holds (retain i cs) t h =
      unfold Connectors.delete_stale_unified_push_registrations in
      delete_connectors-Holds i (Connectors.stale_tokens i cs t) 0 t h
  step-Holds (enqueue_fcm i a via pid body) t h =
      enqueue_fcm_cases Holds i a via pid body t h (remember-Holds i a pid t h) (
        remember-Holds i a pid (insert_fcm i a via pid body t)
          (insert_fcm-Holds i a via pid body t h))
  step-Holds (enqueue_push i a c body) t h =
      unfold enqueue_unified_push_message in
      append_row-Holds i a MessageKind.unified_push Transport.web_socket (some c) none body t h
  step-Holds (ack i id) t h =
      unfold ack_socket_message in (rule.on_delete (is_socket_message i id) t.outbox t.outbox_seq h)
  step-Holds (ack_through i cursor) t h =
      unfold ack_socket_through in
      (rule.on_delete (is_socket_through i cursor) t.outbox t.outbox_seq h)
  step-Holds (finish id) t h =
      unfold delete_outbox_message in (rule.on_delete (λ row. row.id == id) t.outbox t.outbox_seq h)
  step-Holds (defer id seconds) t h =
      unfold defer_outbox_message in (rule.on_defer id (t.now + seconds) t.outbox t.outbox_seq h)
  step-Holds (elapse seconds) t h = h
