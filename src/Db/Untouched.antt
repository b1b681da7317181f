-- ===== src/Db/Untouched.antt =====
-- crates/bridge/src/db.rs: which calls leave the history of acknowledged ids of an app.
use pushcompat.Prelude.{
  ℕ, zero, suc, ◌≡◌, refl, ap, ◌∙◌, inl, inr, List, [], ◌∷◌, Option, none, some, Bool, true, false,
  Text, =?_iff, select, select-delete, Bool-cases, arith,
}
use pushcompat.Types.Transport.{Transport}
use pushcompat.Db.Tables.{Tables, AckedMessage, is_pair}
use pushcompat.Db.Acks.{of_app, keep_recent, with_ack, note_ack, max_ack_history}
use pushcompat.Db.Installations
use pushcompat.Db.Registrations.{save_registration, save_fcm_session, delete_registration}
use pushcompat.Db.Connectors
use pushcompat.Db.Outbox
use pushcompat.Db.Enqueue.{
  insert_fcm, remember, append_row, enqueue_fcm_message, enqueue_unified_push_message,
}
use pushcompat.Db.Invariant.Outbox.{enqueue_fcm_cases}
use pushcompat.Db.AckBounds.{acks_of, with_ack_other, insert_acks, delete_connectors_acks}
use pushcompat.Db.Calls.{
  Call, claim, refresh, touch, save, forget, prune, save_session, register, unregister, retain,
  enqueue_fcm, enqueue_push, ack, ack_through, finish, defer, elapse, step,
}

-- The deletion of the app, or a pruning, which may delete it.
abbrev pub forgets : Text → Text → Call → Bool
forgets i a (forget j b) = is_pair j b i a
forgets i a (prune days) = true
forgets i a _ = false

-- A message for the app.
abbrev pub is_message : Text → Text → Call → Bool
is_message i a (enqueue_fcm j b via pid body) = is_pair j b i a
is_message i a _ = false

-- The calls that may change the history of the app: these, or a message for it.
abbrev pub touches : Text → Text → Call → Bool
touches i a (forget j b) = is_pair j b i a
touches i a (prune days) = true
touches i a (enqueue_fcm j b via pid body) = is_pair j b i a
touches i a _ = false

module _ {ℓ} {A : Type ℓ} where
  keep_recent-other :
      (p q : A → Bool) (n : ℕ) (xs : List A)
      → ((x : A) → q x ≡ true → p x ≡ false)
      → select q (keep_recent p n xs) ≡ select q xs
  unfolding keep_recent
  keep_recent-other p q n [] h = refl
  keep_recent-other p q zero (x ∷ xs) h = ground (arith, h x, keep_recent-other p q zero xs h)
  keep_recent-other p q (suc n) (x ∷ xs) h = elim (Bool-cases (p x)) [
    | inl e ↦ rw (e, keep_recent) (ground (arith, keep_recent-other p q n xs h))
    | inr e ↦ rw (e, keep_recent) (ground (arith, keep_recent-other p q (suc n) xs h))
  ]

-- A row is of one app only.
apart_rows :
    (i a j b : Text) (row : AckedMessage)
    → is_pair j b i a ≡ false
    → of_app i a row ≡ true
    → of_app j b row ≡ false
unfolding of_app
apart_rows i a j b row h e = ground (
  arith,
  =?_iff row.install_id i,
  =?_iff row.app_id a,
  =?_iff row.install_id j,
  =?_iff row.app_id b,
  =?_iff i row.install_id,
  =?_iff a row.app_id,
  =?_iff j i,
  =?_iff b a,
)

note_ack_other :
    (i a j b pid : Text) (rows : List AckedMessage)
    → is_pair j b i a ≡ false
    → acks_of i a (note_ack j b pid rows) ≡ acks_of i a rows
unfolding note_ack
note_ack_other i a j b pid rows h =
    keep_recent-other (of_app j b) (of_app i a) max_ack_history (with_ack j b pid rows)
      (λ row e. apart_rows i a j b row h e)
    ∙ with_ack_other j b pid i a rows
        (ground (arith, =?_iff i j, =?_iff a b, =?_iff j i, =?_iff b a))

remember_other :
    (i a j b : Text) (pid : Option Text) (t : Tables)
    → is_pair j b i a ≡ false
    → acks_of i a (remember j b pid t).acked_messages ≡ acks_of i a t.acked_messages
unfolding remember
remember_other i a j b none t h = refl
remember_other i a j b (some pid) t h = note_ack_other i a j b pid t.acked_messages h

enqueue_other :
    (i a j b : Text) (via : Transport) (pid : Option Text) (body : Text) (t : Tables)
    → is_pair j b i a ≡ false
    → acks_of i a (enqueue_fcm_message j b via pid body t).1.acked_messages
      ≡ acks_of i a t.acked_messages
enqueue_other i a j b via pid body t h =
    enqueue_fcm_cases (λ u. acks_of i a u.acked_messages ≡ acks_of i a t.acked_messages) j b via pid
      body t refl (remember_other i a j b pid t h)
      (remember_other i a j b pid (insert_fcm j b via pid body t) h
        ∙ ap (acks_of i a) (insert_acks t j b via pid body))

delete_other :
    (i a j b : Text) (t : Tables)
    → is_pair j b i a ≡ false
    → acks_of i a (delete_registration j b t).acked_messages ≡ acks_of i a t.acked_messages
unfolding delete_registration
delete_other i a j b t h =
    select-delete (of_app i a) (of_app j b) t.acked_messages (λ row e. apart_rows i a j b row h e)

same_history :
    (i a : Text) (u t : Tables)
    → u.acked_messages ≡ t.acked_messages
    → acks_of i a u.acked_messages ≡ acks_of i a t.acked_messages
same_history i a u t e = ap (acks_of i a) e

pub step_other :
    (i a : Text) (c : Call) (t : Tables)
    → touches i a c ≡ false
    → acks_of i a (step c t).acked_messages ≡ acks_of i a t.acked_messages
unfolding step
step_other i a (claim j k s) t h =
    same_history i a (Installations.claim_installation j k s t).1 t
      (unfold Installations.claim_installation in ground arith)
step_other i a (save reg) t h =
    same_history i a (save_registration reg t).1 t (unfold save_registration in ground arith)
step_other i a (forget j b) t h = delete_other i a j b t h
step_other i a (prune days) t h = cc
step_other i a (register j b c e k) t h =
    same_history i a (Connectors.register_unified_push j b c e k t).1 t
      (unfold Connectors.register_unified_push in ground arith)
step_other i a (unregister j b c) t h =
    same_history i a (Connectors.unregister_unified_push j b c t).1 t
      (unfold Connectors.unregister_unified_push in ground arith)
step_other i a (retain j cs) t h =
    unfold Connectors.delete_stale_unified_push_registrations in
    same_history i a (Connectors.delete_connectors j (Connectors.stale_tokens j cs t) 0 t).1 t
      (delete_connectors_acks j (Connectors.stale_tokens j cs t) 0 t)
step_other i a (enqueue_fcm j b via pid body) t h = enqueue_other i a j b via pid body t h
step_other i a (refresh j s) t h = unfold Installations.refresh_secret in refl
step_other i a (touch j) t h = unfold Installations.touch_installation in refl
step_other i a (save_session j b d) t h = unfold save_fcm_session in refl
step_other i a (enqueue_push j b c body) t h =
    unfold enqueue_unified_push_message append_row in refl
step_other i a (ack j id) t h = unfold Outbox.ack_socket_message in refl
step_other i a (ack_through j cursor) t h = unfold Outbox.ack_socket_through in refl
step_other i a (finish id) t h = unfold Outbox.delete_outbox_message in refl
step_other i a (defer id seconds) t h = unfold Outbox.defer_outbox_message in refl
step_other i a (elapse seconds) t h = refl
