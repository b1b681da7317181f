-- ===== src/Db/AckBounds.antt =====
-- crates/bridge/src/db.rs: the list of acknowledged ids of an app stays short.
use pushcompat.Prelude.{
  ℕ, zero, suc, ◌≤◌, ◌≡◌, refl, ap, inl, inr, List, [], ◌∷◌, Option, none, some, Bool, false, ◌&&◌,
  Text, ◌=?◌, =?_iff, select, delete, length, if◌then◌else◌, Bool-cases, arith,
}
use pushcompat.Types.Transport.{Transport}
use pushcompat.Db.Tables.{Tables, AckedMessage}
use pushcompat.Db.Acks.{of_app, keep_recent, with_ack, note_ack, max_ack_history}
use pushcompat.Db.Installations
use pushcompat.Db.Registrations.{
  save_registration, save_fcm_session, delete_registration, delete_pairs, prune_stale, stale_pairs,
}
use pushcompat.Db.Connectors
use pushcompat.Db.Outbox
use pushcompat.Db.Enqueue.{
  insert_fcm, remember, append_row, enqueue_fcm_message, enqueue_unified_push_message,
}
use pushcompat.Db.Invariant.Outbox.{enqueue_fcm_cases}
use pushcompat.Db.Calls.{
  Call, claim, refresh, touch, save, forget, prune, save_session, register, unregister, retain,
  enqueue_fcm, enqueue_push, ack, ack_through, finish, defer, elapse, step, run,
}

-- The rows of one app.
abbrev pub acks_of : Text → Text → List AckedMessage → List AckedMessage
acks_of i a rows = select (of_app i a) rows

module _ {ℓ} {A : Type ℓ} (p : A → Bool) where
  length-keep_recent : (n : ℕ) (xs : List A) → length (select p (keep_recent p n xs)) ≤ n
  unfolding keep_recent
  length-keep_recent n [] = omega arith
  length-keep_recent zero (x ∷ xs) = ground (arith, length-keep_recent zero xs)
  length-keep_recent (suc n) (x ∷ xs) = elim (Bool-cases (p x)) [
    | inl e ↦ rw (e, keep_recent) (omega (arith, length-keep_recent n xs))
    | inr e ↦ rw (e, keep_recent) (length-keep_recent (suc n) xs)
  ]

  keep_recent-shorter :
      (q : A → Bool) (n : ℕ) (xs : List A)
      → length (select q (keep_recent p n xs)) ≤ length (select q xs)
  unfolding keep_recent
  keep_recent-shorter q n [] = omega arith
  keep_recent-shorter q zero (x ∷ xs) = ground (arith, keep_recent-shorter q zero xs)
  keep_recent-shorter q (suc n) (x ∷ xs) =
      ground (arith, keep_recent-shorter q (if p x then n else suc n) xs)

  -- A list that is short enough is kept whole.
  pub keep_recent-short : (n : ℕ) (xs : List A) → length (select p xs) ≤ n → keep_recent p n xs ≡ xs
  unfolding keep_recent
  keep_recent-short n [] h = refl
  keep_recent-short zero (x ∷ xs) h = ground (arith, keep_recent-short zero xs)
  keep_recent-short (suc n) (x ∷ xs) h = elim (Bool-cases (p x)) [
    | inl e ↦ rw (e, keep_recent) (ap (◌∷◌ x) (keep_recent-short n xs (ground arith)))
    | inr e ↦ rw (e, keep_recent) (ap (◌∷◌ x) (keep_recent-short (suc n) xs (ground arith)))
  ]

  delete-shorter :
      (q : A → Bool) (xs : List A) → length (select p (delete q xs)) ≤ length (select p xs)
  delete-shorter q [] = omega arith
  delete-shorter q (x ∷ xs) = ground (arith, delete-shorter q xs)

-- No app has more than 500 acknowledged ids.
abbrev pub AcksBounded : Tables → Type 0
AcksBounded t = (i a : Text) → length (acks_of i a t.acked_messages) ≤ max_ack_history

pub with_ack_other :
    (i a pid j b : Text) (rows : List AckedMessage)
    → ((i =? j) && (a =? b)) ≡ false
    → acks_of j b (with_ack i a pid rows) ≡ acks_of j b rows
unfolding with_ack of_app
with_ack_other i a pid j b rows h = ground arith

note_ack_bounded :
    (i a pid j b : Text) (rows : List AckedMessage)
    → length (acks_of j b rows) ≤ max_ack_history
    → length (acks_of j b (note_ack i a pid rows)) ≤ max_ack_history
unfolding note_ack
note_ack_bounded i a pid j b rows h = elim (Bool-cases ((i =? j) && (a =? b))) [
  | inl e ↦ ground (
    arith,
    =?_iff i j,
    =?_iff a b,
    length-keep_recent (of_app i a) max_ack_history (with_ack i a pid rows),
  )
  | inr e ↦ omega (
    arith,
    keep_recent-shorter (of_app i a) (of_app j b) max_ack_history (with_ack i a pid rows),
    ap length (with_ack_other i a pid j b rows e),
  )
]

pub remember-AcksBounded :
    (i a : Text) (pid : Option Text) (t : Tables) → AcksBounded t → AcksBounded (remember i a pid t)
unfolding remember
remember-AcksBounded i a none t h = h
remember-AcksBounded i a (some pid) t h =
    λ j b. note_ack_bounded i a pid j b t.acked_messages (h j b)

pub same_acks-AcksBounded :
    (t u : Tables) → u.acked_messages ≡ t.acked_messages → AcksBounded t → AcksBounded u
same_acks-AcksBounded t u e h = λ j b. rw e (h j b)

pub insert_acks :
    (t : Tables) (i a : Text) (via : Transport) (pid : Option Text) (body : Text)
    → (insert_fcm i a via pid body t).acked_messages ≡ t.acked_messages
unfolding insert_fcm append_row
insert_acks t i a via none body = refl
insert_acks t i a via (some pid) body = ground arith

pub enqueue_fcm-AcksBounded :
    (i a : Text) (via : Transport) (pid : Option Text) (body : Text) (t : Tables)
    → AcksBounded t
    → AcksBounded (enqueue_fcm_message i a via pid body t).1
enqueue_fcm-AcksBounded i a via pid body t h =
    enqueue_fcm_cases AcksBounded i a via pid body t h (remember-AcksBounded i a pid t h) (
      remember-AcksBounded i a pid (insert_fcm i a via pid body t) (
        same_acks-AcksBounded t (insert_fcm i a via pid body t) (insert_acks t i a via pid body) h))

delete_pairs-AcksBounded :
    (pairs : List (Text × Text)) (t : Tables) → AcksBounded t → AcksBounded (delete_pairs pairs t)
unfolding delete_pairs delete_registration
delete_pairs-AcksBounded [] t h = h
delete_pairs-AcksBounded ((i, a) ∷ pairs) t h =
    delete_pairs-AcksBounded pairs (delete_registration i a t)
      (λ j b. omega (arith, delete-shorter (of_app j b) (of_app i a) t.acked_messages, h j b))

pub delete_connectors_acks :
    (i : Text) (tokens : List Text) (n : ℕ) (t : Tables)
    → (Connectors.delete_connectors i tokens n t).1.acked_messages ≡ t.acked_messages
unfolding Connectors.delete_connectors Connectors.delete_connector
delete_connectors_acks i [] n t = refl
delete_connectors_acks i (c ∷ tokens) n t =
    delete_connectors_acks i tokens _ (Connectors.delete_connector i c t)

-- No call makes the history of an app longer than 500 ids.
pub step-AcksBounded : (c : Call) (t : Tables) → AcksBounded t → AcksBounded (step c t)
unfolding step
step-AcksBounded (claim i k s) t h =
    same_acks-AcksBounded t (Installations.claim_installation i k s t).1
      (unfold Installations.claim_installation in ground arith) h
step-AcksBounded (save reg) t h =
    same_acks-AcksBounded t (save_registration reg t).1 (unfold save_registration in ground arith) h
step-AcksBounded (forget i a) t h =
    unfold delete_pairs in delete_pairs-AcksBounded ((i, a) ∷ []) t h
step-AcksBounded (prune days) t h =
    unfold prune_stale in delete_pairs-AcksBounded (stale_pairs days t) t h
step-AcksBounded (register i a c e k) t h =
    same_acks-AcksBounded t (Connectors.register_unified_push i a c e k t).1
      (unfold Connectors.register_unified_push in ground arith) h
step-AcksBounded (unregister i a c) t h =
    same_acks-AcksBounded t (Connectors.unregister_unified_push i a c t).1
      (unfold Connectors.unregister_unified_push in ground arith) h
step-AcksBounded (retain i cs) t h =
    unfold Connectors.delete_stale_unified_push_registrations in
    same_acks-AcksBounded t (Connectors.delete_connectors i (Connectors.stale_tokens i cs t) 0 t).1
      (delete_connectors_acks i (Connectors.stale_tokens i cs t) 0 t) h
step-AcksBounded (enqueue_fcm i a via pid body) t h = enqueue_fcm-AcksBounded i a via pid body t h
step-AcksBounded (refresh i s) t h = unfold Installations.refresh_secret in h
step-AcksBounded (touch i) t h = unfold Installations.touch_installation in h
step-AcksBounded (save_session i a d) t h = unfold save_fcm_session in h
step-AcksBounded (enqueue_push i a c body) t h = unfold enqueue_unified_push_message append_row in h
step-AcksBounded (ack i id) t h = unfold Outbox.ack_socket_message in h
step-AcksBounded (ack_through i cursor) t h = unfold Outbox.ack_socket_through in h
step-AcksBounded (finish id) t h = unfold Outbox.delete_outbox_message in h
step-AcksBounded (defer id seconds) t h = unfold Outbox.defer_outbox_message in h
step-AcksBounded (elapse seconds) t h = h

-- After any history of calls no app has more than 500 acknowledged ids, if none had before.
pub run-AcksBounded : (cs : List Call) (t : Tables) → AcksBounded t → AcksBounded (run cs t)
unfolding run
run-AcksBounded [] t h = h
run-AcksBounded (c ∷ cs) t h = run-AcksBounded cs (step c t) (step-AcksBounded c t h)
