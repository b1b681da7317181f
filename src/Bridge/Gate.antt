-- ===== src/Bridge/Gate.antt =====
-- crates/bridge/src/main.rs: which web push messages are taken in.
use pushcompat.Prelude.{
  ℕ, ◌≡◌, refl, ap, bytes, List, [], ◌∷◌, Option, none, some, Bool, true, false, ◌||◌, Text, ◌==◌,
  length, ltb, Bool-cases, ◌⊎◌, inl, inr,
}
use pushcompat.Exec.{Outcome, ok, failed, after}
use pushcompat.Vapid.{Jwt, Checked, validate}
use pushcompat.Vapid
use pushcompat.Db.Tables.{Tables, UnifiedPushRegistration}
use pushcompat.Db.Connectors.{get_unified_push_endpoint}
use pushcompat.Db.Enqueue.{enqueue_unified_push_message}
use pushcompat.Bridge.State.{
  AppState, Reply, reply, reject, StatusCode, created, internal_server_error, ◌>>=◌,
  enforcing_origin, call, call_with, query, lift_reply, continue,
}
use pushcompat.Bridge.Delivery.{enqueue_unified_push, wake_socket}
use pushcompat.Bridge.Push.{
  PushRequest, max_body, is_aes128gcm, vapid_outcome, check_web_push, check_if_keyed, or_not_found,
  push_to, unified_push_message,
}

-- The registration has no key, or no origin is enforced, or the sender has proved itself.
abbrev pub Passed : Jwt → PushRequest → UnifiedPushRegistration → Type 0
Passed j req registration =
    (registration.vapid_pubkey ≡ none)
    ⊎ ((enforcing_origin req.vapid_origin req.kill_file_exists ≡ none)
        ⊎ ((stored_key origin : Text) × (registration.vapid_pubkey ≡ some stored_key)
            × (enforcing_origin req.vapid_origin req.kill_file_exists ≡ some origin)
            × (is_aes128gcm req.content_encoding ≡ true)
            × (validate j req.authorization stored_key origin req.now ≡ Vapid.accepted)))

-- The message is in the outbox for the connector that the endpoint was given out for.
abbrev pub TakenIn : Jwt → PushRequest → Tables → Tables → Type 0
TakenIn j req t u =
    (registration : UnifiedPushRegistration) × (get_unified_push_endpoint req.endpoint_token t
      ≡ some registration)
    × Passed j req registration
    × (u
        ≡ (enqueue_unified_push_message registration.install_id registration.app_id
            registration.connector_token req.body t).1)

-- A message is refused and the tables stand as they were, or it is taken in.
abbrev pub Decided : Jwt → PushRequest → Tables → Reply StatusCode × AppState → Type 0
Decided j req t (reply code, s) = (code ≡ created) × TakenIn j req t s.tables
Decided j req t (reject status reason, s) = s.tables ≡ t

pub call_cases {ℓ} :
    {A : Type 0} (P : Outcome A × AppState → Type ℓ) (f : Tables → A × Tables) (s : AppState)
    → ((fs : List Bool) → P (failed, record s { faults = fs }))
    → ((fs : List Bool) → P (ok (f s.tables).0, record s { tables = (f s.tables).1; faults = fs }))
    → P (call f s)
unfolding call
call_cases P f s bad good = call_with_cases s.faults
  where
    call_with_cases : (faults : List Bool) → P (call_with f s faults)
    call_with_cases [] = good s.faults
    call_with_cases (true ∷ fs) = bad fs
    call_with_cases (false ∷ fs) = good fs

-- What the checks leave: the tables, and a proof where they pass.
abbrev Checks :
    Jwt → PushRequest → UnifiedPushRegistration → Tables → Reply (Unit {0}) × AppState → Type 0
Checks j req registration t (reply u, s) = Passed j req registration × (s.tables ≡ t)
Checks j req registration t (reject status reason, s) = s.tables ≡ t

vapid_outcome-Checks :
    (j : Jwt) (req : PushRequest) (registration : UnifiedPushRegistration) (key origin : Text)
    (s : AppState) (checked : Checked)
    → registration.vapid_pubkey ≡ some key
    → enforcing_origin req.vapid_origin req.kill_file_exists ≡ some origin
    → is_aes128gcm req.content_encoding ≡ true
    → validate j req.authorization key origin req.now ≡ checked
    → Checks j req registration s.tables (vapid_outcome checked s)
vapid_outcome-Checks j req registration key origin s Vapid.accepted k o m e =
    (inr (inr (key, origin, k, o, m, e)), refl)
vapid_outcome-Checks j req registration key origin s (Vapid.rejected r) k o m e = refl

check_web_push-Checks :
    (j : Jwt) (req : PushRequest) (registration : UnifiedPushRegistration) (key origin : Text)
    (s : AppState)
    → registration.vapid_pubkey ≡ some key
    → enforcing_origin req.vapid_origin req.kill_file_exists ≡ some origin
    → Checks j req registration s.tables (check_web_push j req key origin s)
unfolding check_web_push
check_web_push-Checks j req registration key origin s k o =
    elim (Bool-cases (is_aes128gcm req.content_encoding)) [
      | inl m ↦
          rw (m, check_web_push)
            (vapid_outcome-Checks j req registration key origin s
              (validate j req.authorization key origin req.now) k o m refl)
      | inr m ↦ rw (m, check_web_push) refl
    ]

check_if_keyed-Checks :
    (j : Jwt) (req : PushRequest) (registration : UnifiedPushRegistration)
    (key origin : Option Text) (s : AppState)
    → registration.vapid_pubkey ≡ key
    → enforcing_origin req.vapid_origin req.kill_file_exists ≡ origin
    → Checks j req registration s.tables (check_if_keyed j req key origin s)
check_if_keyed-Checks j req registration (some key) (some origin) s k o =
    check_web_push-Checks j req registration key origin s k o
check_if_keyed-Checks j req registration (some key) none s k o = (inr (inl o), refl)
check_if_keyed-Checks j req registration none origin s k o = (inl k, refl)

abbrev enqueued : PushRequest → UnifiedPushRegistration → AppState → Reply ℕ × AppState
enqueued req registration s = lift_reply internal_server_error (bytes "database error") (
    enqueue_unified_push registration.install_id registration.app_id registration.connector_token
      req.body s)

enqueue-Decided :
    (j : Jwt) (req : PushRequest) (registration : UnifiedPushRegistration) (t : Tables)
    (s : AppState)
    → get_unified_push_endpoint req.endpoint_token t ≡ some registration
    → Passed j req registration
    → s.tables ≡ t
    → Decided j req t (continue (λ _ u. (reply created, u)) (enqueued req registration s))
unfolding enqueue_unified_push
enqueue-Decided j req registration t s g p e =
    call_cases
      (λ x. Decided j req t (
        continue (λ _ u. (reply created, u))
          (lift_reply internal_server_error (bytes "database error")
            (after (λ id u. (ok id, wake_socket registration.install_id u)) x))))
      (enqueue_unified_push_message registration.install_id registration.app_id
        registration.connector_token req.body)
      s (λ fs. e)
      (λ fs. (
        refl,
        (
          registration,
          g,
          p,
          ap
              (λ u.
                (enqueue_unified_push_message registration.install_id registration.app_id
                  registration.connector_token req.body u).1)
              e,
        ),
      ))

checked-Decided :
    (j : Jwt) (req : PushRequest) (registration : UnifiedPushRegistration) (t : Tables)
    (r : Reply (Unit {0}) × AppState)
    → get_unified_push_endpoint req.endpoint_token t ≡ some registration
    → Checks j req registration t r
    → Decided j req t
        (continue (λ _ s. continue (λ _ u. (reply created, u)) (enqueued req registration s)) r)
checked-Decided j req registration t (reply u, s) g (p, e) =
    enqueue-Decided j req registration t s g p e
checked-Decided j req registration t (reject status reason, s) g e = e

found-Decided :
    (j : Jwt) (req : PushRequest) (s : AppState) (found : Option UnifiedPushRegistration)
    → get_unified_push_endpoint req.endpoint_token s.tables ≡ found
    → Decided j req s.tables (continue (push_to j req) (or_not_found found s))
unfolding push_to
found-Decided j req s none g = refl
found-Decided j req s (some registration) g = checked-Decided j req registration s.tables _ g (
    check_if_keyed-Checks j req registration registration.vapid_pubkey
      (enforcing_origin req.vapid_origin req.kill_file_exists) s refl refl)

-- A message that is posted to an endpoint is refused and the tables stand as they were, also where
-- the database fails, or it is taken into the outbox for the connector that has the endpoint. That
-- needs an accepted header of the connector's key where it has one and an origin is enforced.
pub unified_push_message-Decided :
    (j : Jwt) (req : PushRequest) (s : AppState)
    → Decided j req s.tables (unified_push_message j req s)
unfolding unified_push_message
unified_push_message-Decided j req s =
    elim (Bool-cases (length req.body == 0 || ltb max_body (length req.body))) [
      | inl m ↦ rw (m, unified_push_message) refl
      | inr m ↦
          rw (m, unified_push_message)
            (call_cases
              (λ x. Decided j req s.tables (
                continue (λ found. or_not_found found >>= push_to j req)
                  (lift_reply internal_server_error (bytes "database error") x)))
              (query (get_unified_push_endpoint req.endpoint_token)) s (λ fs. refl)
              (λ fs.
                found-Decided j req (record s { faults = fs })
                  (get_unified_push_endpoint req.endpoint_token s.tables) refl))
    ]
