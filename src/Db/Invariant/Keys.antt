-- ===== src/Db/Invariant/Keys.antt =====
-- crates/bridge/sql/schema.sql: the primary keys and the unique endpoint.
use pushcompat.Prelude.{
  ℕ, zero, suc, ◌≡◌, refl, List, [], ◌∷◌, Option, none, some, Bool, false, Text, ◌=?◌, =?_iff,
  any-delete_self, any, find, delete, update, if◌then◌else◌, Bool-cases, Option-cases, arith, inl,
  inr, Distinct, Distinct-delete, Distinct-update, Distinct-append, find-none,
}
use pushcompat.Db.Tables.{
  Tables, Installation, Registration, FcmSession, AckedMessage, UnifiedPushRegistration, OutboxRow,
}
use pushcompat.Db.Connectors
use pushcompat.Db.Installations.{
  fresh, has_id, with_secret, touched, claim_installation, refresh_secret, touch_installation,
}
use pushcompat.Db.Registrations.{
  has_key, has_session, save_registration, delete_registration, delete_pairs, prune_stale,
  stale_pairs, save_fcm_session,
}
use pushcompat.Db.Acks.{of_app, is_ack, keep_recent, note_ack, max_ack_history}
use pushcompat.Db.Connectors.{
  has_connector, has_endpoint, with_key, register_unified_push, unregister_unified_push,
  delete_connector, delete_connectors, delete_stale_unified_push_registrations,
}
use pushcompat.Db.Enqueue.{remember}

abbrev pub same_installation : Installation → Installation → Bool
same_installation a b = has_id b.install_id a

abbrev pub same_registration : Registration → Registration → Bool
same_registration a b = has_key b.install_id b.app_id a

abbrev pub same_session : FcmSession → FcmSession → Bool
same_session a b = has_session b.install_id b.app_id a

abbrev pub same_ack : AckedMessage → AckedMessage → Bool
same_ack a b = is_ack b.install_id b.app_id b.persistent_id a

abbrev pub same_connector : UnifiedPushRegistration → UnifiedPushRegistration → Bool
same_connector a b = has_connector b.install_id b.connector_token a

abbrev pub same_endpoint : UnifiedPushRegistration → UnifiedPushRegistration → Bool
same_endpoint a b = has_endpoint b.endpoint_token a

-- The table has its newest row first.
abbrev pub newer_ack : AckedMessage → AckedMessage → Bool
newer_ack a b = same_ack b a

module _ {ℓ} {A : Type ℓ} (s : A → A → Bool) where
  any-keep_recent :
      (p q : A → Bool) (n : ℕ) (xs : List A) → any p xs ≡ false → any p (keep_recent q n xs) ≡ false
  unfolding keep_recent
  any-keep_recent p q n [] h = refl
  any-keep_recent p q zero (x ∷ xs) h = ground (arith, any-keep_recent p q zero xs)
  any-keep_recent p q (suc n) (x ∷ xs) h =
      ground (arith, any-keep_recent p q (if q x then n else suc n) xs)

  pub Distinct-keep_recent :
      (q : A → Bool) (n : ℕ) (xs : List A) → Distinct s xs → Distinct s (keep_recent q n xs)
  unfolding keep_recent
  Distinct-keep_recent q n [] h = tt
  Distinct-keep_recent q zero (x ∷ xs) (h, d) =
      ground (arith, any-keep_recent (s x) q zero xs h, Distinct-keep_recent q zero xs d)
  Distinct-keep_recent q (suc n) (x ∷ xs) (h, d) =
      (any-keep_recent (s x) q _ xs h, Distinct-keep_recent q (if q x then n else suc n) xs d)

-- Rows replaced by one with their key.
any-replace :
    (x new : Registration) (rows : List Registration)
    → any (same_registration x) rows ≡ false
    → any (same_registration x) (update (has_key new.install_id new.app_id) (λ _. new) rows) ≡ false
unfolding has_key
any-replace x new [] h = refl
any-replace x new (y ∷ rows) h =
    ground (
      arith,
      =?_iff y.install_id new.install_id,
      =?_iff y.app_id new.app_id,
      any-replace x new rows,
    )

Distinct-replace :
    (new : Registration) (rows : List Registration)
    → Distinct same_registration rows
    → Distinct same_registration (update (has_key new.install_id new.app_id) (λ _. new) rows)
unfolding has_key
Distinct-replace new [] h = tt
Distinct-replace new (x ∷ rows) (h, d) = ground (
  arith,
  =?_iff x.install_id new.install_id,
  =?_iff x.app_id new.app_id,
  any-replace x new rows h,
  Distinct-replace new rows d,
)

pub record KeysInv (t : Tables) : Type 0 where
  pub installations : Distinct same_installation t.installations
  pub registrations : Distinct same_registration t.registrations
  pub sessions : Distinct same_session t.fcm_sessions
  pub acks : Distinct newer_ack t.acked_messages
  pub connectors : Distinct same_connector t.unified_push_registrations
  pub endpoints : Distinct same_endpoint t.unified_push_registrations

pub claim-KeysInv : (i h s : Text) (t : Tables) → KeysInv t → KeysInv (claim_installation i h s t).1
unfolding claim_installation
claim-KeysInv i h s t v = elim (Option-cases (find (has_id i) t.installations)) [
  | inl e ↦
      rw (e, claim_installation)
        (assumption (
          Distinct-append same_installation t.installations (fresh i h s t.now)
            (find-none (has_id i) t.installations e) v.installations))
  | inr (row, e) ↦
      rw (e, claim_installation)
        (elim (Bool-cases (row.secret_hash =? h)) [
          | inl m ↦ rw m (
              assumption (
                Distinct-update same_installation (has_id i) (with_secret s t.now) t.installations
                  (λ a b. refl) (λ a b. refl) v.installations))
          | inr m ↦ rw m v
        ])
]

pub refresh-KeysInv : (i s : Text) (t : Tables) → KeysInv t → KeysInv (refresh_secret i s t)
unfolding refresh_secret
refresh-KeysInv i s t v = assumption (
    Distinct-update same_installation (has_id i) (with_secret s t.now) t.installations (λ a b. refl)
      (λ a b. refl) v.installations)

pub touch-KeysInv : (i : Text) (t : Tables) → KeysInv t → KeysInv (touch_installation i t)
unfolding touch_installation
touch-KeysInv i t v = assumption (
    Distinct-update same_installation (has_id i) (touched t.now) t.installations (λ a b. refl)
      (λ a b. refl) v.installations)

pub save-KeysInv :
    (reg : Registration) (t : Tables) → KeysInv t → KeysInv (save_registration reg t).1
unfolding save_registration
save-KeysInv reg t v =
    elim (Option-cases (find (has_key reg.install_id reg.app_id) t.registrations)) [
      | inl e ↦
          rw (e, save_registration)
            (assumption (
              Distinct-append same_registration t.registrations (record reg { updated_at = t.now })
                (find-none (has_key reg.install_id reg.app_id) t.registrations e) v.registrations))
      | inr (row, e) ↦
          rw (e, save_registration)
            (elim (Bool-cases (row.secret_hash =? reg.secret_hash)) [
              | inl m ↦ rw m (
                  assumption (
                    Distinct-replace (record reg { updated_at = t.now }) t.registrations
                      v.registrations))
              | inr m ↦ rw m v
            ])
    ]

pub delete_registration-KeysInv :
    (i a : Text) (t : Tables) → KeysInv t → KeysInv (delete_registration i a t)
unfolding delete_registration
delete_registration-KeysInv i a t v = assumption (
  Distinct-delete same_registration (has_key i a) t.registrations v.registrations,
  Distinct-delete same_session (has_session i a) t.fcm_sessions v.sessions,
  Distinct-delete newer_ack (of_app i a) t.acked_messages v.acks,
)

delete_pairs-KeysInv :
    (pairs : List (Text × Text)) (t : Tables) → KeysInv t → KeysInv (delete_pairs pairs t)
unfolding delete_pairs
delete_pairs-KeysInv [] t v = v
delete_pairs-KeysInv ((i, a) ∷ pairs) t v =
    delete_pairs-KeysInv pairs _ (delete_registration-KeysInv i a t v)

pub prune-KeysInv : (days : ℕ) (t : Tables) → KeysInv t → KeysInv (prune_stale days t).1
unfolding prune_stale
prune-KeysInv days t v = delete_pairs-KeysInv (stale_pairs days t) t v

pub save_session-KeysInv :
    (i a d : Text) (t : Tables) → KeysInv t → KeysInv (save_fcm_session i a d t)
unfolding save_fcm_session
save_session-KeysInv i a d t v = assumption (
    Distinct-append same_session (delete (has_session i a) t.fcm_sessions)
      (record { install_id = i; app_id = a; registration_data = d })
      (any-delete_self (has_session i a) t.fcm_sessions)
      (Distinct-delete same_session (has_session i a) t.fcm_sessions v.sessions))

pub register-KeysInv :
    (i a c e : Text) (k : Option Text) (t : Tables)
    → KeysInv t
    → KeysInv (register_unified_push i a c e k t).1
unfolding register_unified_push
register-KeysInv i a c e k t v =
    elim (Option-cases (find (has_connector i c) t.unified_push_registrations)) [
      | inl n ↦
          rw (n, register_unified_push)
            (elim (Bool-cases (any (has_endpoint e) t.unified_push_registrations)) [
              | inl m ↦ rw m v
              | inr m ↦ rw m (
                  assumption (
                    Distinct-append same_connector t.unified_push_registrations
                        (Connectors.fresh i a c e k t.now)
                        (find-none (has_connector i c) t.unified_push_registrations n) v.connectors,
                    Distinct-append same_endpoint t.unified_push_registrations
                        (Connectors.fresh i a c e k t.now) m v.endpoints,
                  ))
            ])
      | inr (row, n) ↦
          rw (n, register_unified_push)
            (elim (Bool-cases (row.app_id =? a)) [
              | inl m ↦ rw m (
                  assumption (
                    Distinct-update same_connector (has_connector i c) (with_key k t.now)
                        t.unified_push_registrations (λ a b. refl) (λ a b. refl) v.connectors,
                    Distinct-update same_endpoint (has_connector i c) (with_key k t.now)
                        t.unified_push_registrations (λ a b. refl) (λ a b. refl) v.endpoints,
                  ))
              | inr m ↦ rw m v
            ])
    ]

-- Deleting rows, of this table and of the outbox.
pub delete_connectors-KeysInv :
    (d : UnifiedPushRegistration → Bool) (q : OutboxRow → Bool) (t : Tables)
    → KeysInv t
    → KeysInv (record t {
      outbox = delete q t.outbox;
      unified_push_registrations = delete d t.unified_push_registrations;
    })
delete_connectors-KeysInv d q t v = assumption (
  Distinct-delete same_connector d t.unified_push_registrations v.connectors,
  Distinct-delete same_endpoint d t.unified_push_registrations v.endpoints,
)

pub remember-KeysInv :
    (i a : Text) (pid : Option Text) (t : Tables) → KeysInv t → KeysInv (remember i a pid t)
unfolding remember note_ack
remember-KeysInv i a none t v = v
remember-KeysInv i a (some pid) t v = elim (Bool-cases (any (is_ack i a pid) t.acked_messages)) [
  | inl e ↦ rw e (
      assumption
        (Distinct-keep_recent newer_ack (of_app i a) max_ack_history t.acked_messages v.acks))
  | inr e ↦ rw e (
      assumption (
        Distinct-keep_recent newer_ack (of_app i a) max_ack_history
          (record { install_id = i; app_id = a; persistent_id = pid } ∷ t.acked_messages)
          (e, v.acks)))
]
