-- ===== src/Db/Owners.antt =====
-- crates/bridge/src/db.rs: who owns an installation, over any history of calls.
use mathlib.Core.Option
use pushcompat.Prelude.{
  ℕ, ◌+◌, ◌≡◌, ◌≢◌, refl, ◌∙◌, ap, ◌⊎◌, inl, inr, List, [], ◌∷◌, ◌++◌, Option, none, some, Bool,
  true, false, Text, ◌=?◌, =?_iff, =?_refl, find, update, Bool-cases, Option-cases, arith,
  find-append, find-update, find-some,
}
use pushcompat.Db.Tables.{Tables, Installation, Registration}
use pushcompat.Types.Transport.{Transport}
use pushcompat.Db.Installations.{
  has_id, fresh, with_secret, touched, claim_installation, stored_hash, refresh_secret,
  touch_installation, installation_secret,
}
use pushcompat.Db.Registrations.{
  save_registration, delete_pairs, delete_registration, prune_stale, stale_pairs, save_fcm_session,
}
use pushcompat.Db.Connectors
use pushcompat.Db.Outbox
use pushcompat.Db.Enqueue
use pushcompat.Db.Invariant.Outbox.{enqueue_fcm_cases}
use pushcompat.Db.Calls.{
  Call, claim, refresh, touch, save, forget, prune, save_session, register, unregister, retain,
  enqueue_fcm, enqueue_push, ack, ack_through, finish, defer, elapse, step, run,
}

-- The installations under the calls for the other tables.
module _ (t : Tables) where
  register_installations :
      (i a c e : Text) (k : Option Text)
      → (Connectors.register_unified_push i a c e k t).1.installations ≡ t.installations
  unfolding Connectors.register_unified_push
  register_installations i a c e k = ground arith

  unregister_installations :
      (i a c : Text)
      → (Connectors.unregister_unified_push i a c t).1.installations ≡ t.installations
  unfolding Connectors.unregister_unified_push
  unregister_installations i a c = ground arith

  save_installations :
      (reg : Registration) → (save_registration reg t).1.installations ≡ t.installations
  unfolding save_registration
  save_installations reg = ground arith

  insert_installations :
      (i a : Text) (via : Transport) (pid : Option Text) (body : Text)
      → (Enqueue.insert_fcm i a via pid body t).installations ≡ t.installations
  unfolding Enqueue.insert_fcm Enqueue.append_row
  insert_installations i a via none body = refl
  insert_installations i a via (some pid) body = ground arith

  remember_installations :
      (i a : Text) (pid : Option Text)
      → (Enqueue.remember i a pid t).installations ≡ t.installations
  unfolding Enqueue.remember
  remember_installations i a none = refl
  remember_installations i a (some pid) = refl

enqueue_installations :
    (t : Tables) (i a : Text) (via : Transport) (pid : Option Text) (body : Text)
    → (Enqueue.enqueue_fcm_message i a via pid body t).1.installations ≡ t.installations
enqueue_installations t i a via pid body =
    enqueue_fcm_cases (λ u. u.installations ≡ t.installations) i a via pid body t refl
      (remember_installations t i a pid)
      (remember_installations (Enqueue.insert_fcm i a via pid body t) i a pid
        ∙ insert_installations t i a via pid body)

delete_pairs_installations :
    (pairs : List (Text × Text)) (t : Tables)
    → (delete_pairs pairs t).installations ≡ t.installations
unfolding delete_pairs delete_registration
delete_pairs_installations [] t = refl
delete_pairs_installations ((i, a) ∷ pairs) t =
    delete_pairs_installations pairs (delete_registration i a t)

delete_connectors_installations :
    (i : Text) (tokens : List Text) (n : ℕ) (t : Tables)
    → (Connectors.delete_connectors i tokens n t).1.installations ≡ t.installations
unfolding Connectors.delete_connectors Connectors.delete_connector
delete_connectors_installations i [] n t = refl
delete_connectors_installations i (c ∷ tokens) n t =
    delete_connectors_installations i tokens _ (Connectors.delete_connector i c t)

same_installations :
    (i : Text) (t u : Tables)
    → u.installations ≡ t.installations
    → stored_hash i u ≡ stored_hash i t
unfolding stored_hash
same_installations i t u e = rw e

-- An update that keeps ids and hashes.
update_hash :
    (i : Text) (q : Installation → Bool) (f : Installation → Installation)
    (rows : List Installation)
    → ((row : Installation) → (f row).install_id ≡ row.install_id)
    → ((row : Installation) → (f row).secret_hash ≡ row.secret_hash)
    → Option.map (λ row. row.secret_hash) (find (has_id i) (update q f rows))
      ≡ Option.map (λ row. row.secret_hash) (find (has_id i) rows)
unfolding has_id
update_hash i q f [] e g = refl
update_hash i q f (row ∷ rows) e g = ground (arith, e row, g row, update_hash i q f rows e g)

-- Another's claim leaves the hash alone.
claim_hash :
    (i j h s k : Text) (t : Tables)
    → stored_hash i t ≡ some k
    → stored_hash i (claim_installation j h s t).1 ≡ some k
unfolding stored_hash claim_installation
claim_hash i j h s k t e = elim (Option-cases (find (has_id j) t.installations)) [
  | inl n ↦ rw (n, claim_installation) (rw (find-append (has_id i) t.installations) (ground arith))
  | inr (row, n) ↦
      rw (n, claim_installation)
        (elim (Bool-cases (row.secret_hash =? h)) [
          | inl m ↦ rw m (
              update_hash i (has_id j) (with_secret s t.now) t.installations (λ r. refl) (λ r. refl)
              ∙ e)
          | inr m ↦ rw m e
        ])
]

pub step-stored_hash :
    (c : Call) (i k : Text) (t : Tables)
    → stored_hash i t ≡ some k
    → stored_hash i (step c t) ≡ some k
unfolding step
step-stored_hash (claim j h s) i k t e = claim_hash i j h s k t e
step-stored_hash (refresh j s) i k t e =
    unfold refresh_secret stored_hash in
    (update_hash i (has_id j) (with_secret s t.now) t.installations (λ r. refl) (λ r. refl) ∙ e)
step-stored_hash (touch j) i k t e =
    unfold touch_installation stored_hash in
    (update_hash i (has_id j) (touched t.now) t.installations (λ r. refl) (λ r. refl) ∙ e)
step-stored_hash (save reg) i k t e = same_installations i t _ (save_installations t reg) ∙ e
step-stored_hash (forget j a) i k t e =
    unfold delete_registration in (same_installations i t (delete_registration j a t) refl ∙ e)
step-stored_hash (prune days) i k t e =
    unfold prune_stale in
    (same_installations i t _ (delete_pairs_installations (stale_pairs days t) t) ∙ e)
step-stored_hash (save_session j a d) i k t e =
    unfold save_fcm_session in (same_installations i t (save_fcm_session j a d t) refl ∙ e)
step-stored_hash (register j a c x y) i k t e =
    same_installations i t _ (register_installations t j a c x y) ∙ e
step-stored_hash (unregister j a c) i k t e =
    same_installations i t _ (unregister_installations t j a c) ∙ e
step-stored_hash (retain j cs) i k t e =
    unfold Connectors.delete_stale_unified_push_registrations in
    (same_installations i t _
        (delete_connectors_installations j (Connectors.stale_tokens j cs t) 0 t)
      ∙ e)
step-stored_hash (enqueue_fcm j a via pid body) i k t e =
    same_installations i t _ (enqueue_installations t j a via pid body) ∙ e
step-stored_hash (enqueue_push j a c body) i k t e =
    unfold Enqueue.enqueue_unified_push_message Enqueue.append_row in
    (same_installations i t ((Enqueue.enqueue_unified_push_message j a c body t).1) refl ∙ e)
step-stored_hash (ack j id) i k t e =
    unfold Outbox.ack_socket_message in
    (same_installations i t ((Outbox.ack_socket_message j id t).1) refl ∙ e)
step-stored_hash (ack_through j cursor) i k t e =
    unfold Outbox.ack_socket_through in
    (same_installations i t ((Outbox.ack_socket_through j cursor t).1) refl ∙ e)
step-stored_hash (finish id) i k t e =
    unfold Outbox.delete_outbox_message in
    (same_installations i t (Outbox.delete_outbox_message id t) refl ∙ e)
step-stored_hash (defer id seconds) i k t e =
    unfold Outbox.defer_outbox_message in
    (same_installations i t (Outbox.defer_outbox_message id seconds t) refl ∙ e)
step-stored_hash (elapse seconds) i k t e =
    same_installations i t (record t { now = t.now + seconds }) refl ∙ e

-- No history of calls, whoever makes them, changes or removes the secret hash of an installation
-- once it is stored.
pub run-stored_hash :
    (cs : List Call) (i k : Text) (t : Tables)
    → stored_hash i t ≡ some k
    → stored_hash i (run cs t) ≡ some k
unfolding run
run-stored_hash [] i k t e = e
run-stored_hash (c ∷ cs) i k t e = run-stored_hash cs i k (step c t) (step-stored_hash c i k t e)

has_id_self : (i h s : Text) (n : ℕ) → has_id i (fresh i h s n) ≡ true
unfolding has_id
has_id_self i h s n = =?_refl i

claim_fresh :
    (i h s : Text) (t : Tables)
    → find (has_id i) t.installations ≡ none
    → find (has_id i) (t.installations ++ fresh i h s t.now ∷ []) ≡ some (fresh i h s t.now)
claim_fresh i h s t e =
    rw (find-append (has_id i) t.installations, e) (ground (arith, has_id_self i h s t.now))

claim_again :
    (i s : Text) (t : Tables) (row : Installation)
    → find (has_id i) t.installations ≡ some row
    → find (has_id i) (update (has_id i) (with_secret s t.now) t.installations)
      ≡ some (with_secret s t.now row)
claim_again i s t row e =
    find-update (has_id i) (has_id i) (with_secret s t.now) t.installations
      (λ r. unfold has_id in refl)
    ∙ ground (arith, e, find-some (has_id i) t.installations row e)

-- A claim succeeds if the id has no hash stored or this one; then the hash and the secret that are
-- stored are the claimed ones. A claim against another hash fails and changes nothing.
pub claim_installation_outcome :
    (i h s : Text) (t : Tables)
    → let (claimed, u) = claim_installation i h s t in
      ((claimed ≡ true)
        × ((stored_hash i t ≡ none) ⊎ (stored_hash i t ≡ some h))
        × (stored_hash i u ≡ some h)
        × (installation_secret i u ≡ some s))
      ⊎ ((claimed ≡ false) × (stored_hash i t ≢ none) × (stored_hash i t ≢ some h) × (u ≡ t))
unfolding claim_installation stored_hash installation_secret
claim_installation_outcome i h s t = elim (Option-cases (find (has_id i) t.installations)) [
  | inl e ↦
      rw (e, claim_installation)
        (inl (
          refl,
          inl refl,
          ground (arith, claim_fresh i h s t e),
          ground (arith, claim_fresh i h s t e),
        ))
  | inr (row, e) ↦ elim (Bool-cases (row.secret_hash =? h)) [
    | inl m ↦
        let same = (=?_iff row.secret_hash h).0 m in
        let kept = claim_again i s t row e in
        rw (e, claim_installation, m)
          (inl (refl, inr (ap some same), ground (arith, kept, same), ground (arith, kept)))
    | inr m ↦
        rw (e, claim_installation, m)
          (inr (refl, ground arith, ground (arith, e, =?_iff row.secret_hash h), refl))
  ]
]
