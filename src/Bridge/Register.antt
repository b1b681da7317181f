-- ===== src/Bridge/Register.antt =====
-- crates/bridge/src/main.rs: the handlers `register` and `unregister`, and the work at start and
-- once a day. `Config` is what the command line gives, with the parser of URLs and the service of FCM.
use pushcompat.Prelude.Int.{ℤ}
use pushcompat.Prelude.{
  ℕ, List, [], ◌∷◌, Option, none, some, Bool, true, Text, bytes, if◌then◌else◌,
}
use pushcompat.Exec.{Outcome, ok, failed, Exec}
use pushcompat.Crypto.{Crypto}
use pushcompat.Types.Transport.{Transport}
use pushcompat.Types.Transport
use pushcompat.Validate.{Url, Checked, EndpointError, validate_endpoint}
use pushcompat.Validate
use pushcompat.Db.Tables.{Registration}
use pushcompat.Db.Registrations.{
  get_registration, save_registration, delete_registration, prune_stale, list_registrations,
}
use pushcompat.Bridge.State.{
  AppState, DeliveryTarget, ListenerConfig, Reply, Handler, bad_request, unauthorized,
  internal_server_error, reply, respond, refuse, modify, or_reject, call, query, execute, ◌>>=◌,
}
use pushcompat.Bridge.Auth.{
  RegisterIdentity, bearer_secret, authorize_register, authorize_unregister,
}
use pushcompat.Bridge.Delivery.{from_parts}
use pushcompat.Bridge.Listeners.{FcmService, start_listener, stop_listener}

pub record Config : Type 0 where
  pub crypto : Crypto
  pub fcm : FcmService
  pub parse_url : Text → Option Url
  pub endpoint_allowlist : List Text

pub record RegisterRequest : Type 0 where
  pub endpoint : Option Text
  pub transport : Option Text
  pub fcm_token : Option Text
  pub app_id : Text
  pub install_id : Option Text
  pub firebase_app_id : Option Text
  pub firebase_project_id : Option Text
  pub firebase_api_key : Option Text
  pub cert_sha1 : Option Text
  pub app_version : Option ℤ
  pub app_version_name : Option Text
  pub target_sdk : Option ℤ

pub record RegisterResponse : Type 0 where
  pub success : Bool
  pub fcm_token : Option Text

abbrev pub or_else {ℓ} : {A : Type ℓ} → Option A → A → A
or_else none a = a
or_else (some b) a = b

-- The transport that a request asks for; the endpoint's, if it names none.
unfoldable pub requested_transport : Option Text → Handler Transport
requested_transport text =
    elim (Transport.try_from (or_else text (Transport.as_ref Transport.unified_push))) [
      | none ↦ refuse bad_request (bytes "unsupported delivery transport")
      | some transport ↦ respond transport
    ]

abbrev pub if_accepted : Text → Checked → Handler Text
if_accepted endpoint Validate.accepted = respond endpoint
if_accepted endpoint (Validate.rejected e) = refuse bad_request (bytes "endpoint rejected")

-- The endpoint, checked; a socket needs none.
unfoldable pub requested_endpoint : Config → Transport → Option Text → Handler Text
requested_endpoint g Transport.unified_push none =
    refuse bad_request (bytes "UnifiedPush endpoint required")
requested_endpoint g Transport.unified_push (some endpoint) =
    if_accepted endpoint (validate_endpoint g.parse_url endpoint g.endpoint_allowlist)
requested_endpoint g Transport.web_socket endpoint = respond []

unfoldable pub requested_target : Transport → Text → Handler DeliveryTarget
requested_target transport endpoint = elim (from_parts transport endpoint) [
  | none ↦ refuse bad_request (bytes "UnifiedPush endpoint is missing")
  | some target ↦ respond target
]

abbrev pub all_three : Option Text → Option Text → Option Text → Option (Text × Text × Text)
all_three (some a) (some p) (some k) = some (a, p, k)
all_three _ _ _ = none

-- The request's credentials if it has all three, else those of the saved registration.
unfoldable pub firebase_credentials :
    RegisterRequest → Option Registration → Handler (Text × Text × Text)
firebase_credentials req existing =
    elim (all_three req.firebase_app_id req.firebase_project_id req.firebase_api_key) [
      | some credentials ↦ respond credentials
      | none ↦ elim existing [
        | some reg ↦ respond (reg.firebase_app_id, reg.firebase_project_id, reg.firebase_api_key)
        | none ↦ refuse bad_request (bytes "Firebase credentials required for first registration")
      ]
    ]

abbrev pub registration_of :
    RegisterRequest → RegisterIdentity → Transport → Text → Text × Text × Text → Registration
registration_of req identity transport endpoint (firebase_app_id, project_id, api_key) = record {
  install_id = identity.install_id;
  app_id = req.app_id;
  secret_hash = identity.secret_hash;
  endpoint = endpoint;
  fcm_token = req.fcm_token;
  firebase_app_id = firebase_app_id;
  firebase_project_id = project_id;
  firebase_api_key = api_key;
  cert_sha1 = req.cert_sha1;
  app_version = req.app_version;
  app_version_name = req.app_version_name;
  target_sdk = req.target_sdk;
  transport = transport;
  updated_at = 0;
}

abbrev pub config_of : Registration → DeliveryTarget → ListenerConfig
config_of reg target = record {
  firebase_app_id = reg.firebase_app_id;
  firebase_project_id = reg.firebase_project_id;
  firebase_api_key = reg.firebase_api_key;
  cert_sha1 = reg.cert_sha1;
  app_version = reg.app_version;
  app_version_name = reg.app_version_name;
  target_sdk = reg.target_sdk;
  target = target;
}

-- A listener that does not start leaves the registration saved, and the request successful.
abbrev pub token_of : Outcome Text × AppState → Reply RegisterResponse × AppState
token_of (ok token, s) = (reply (record { success = true; fcm_token = some token }), s)
token_of (failed, s) = (reply (record { success = true; fcm_token = none }), s)

-- The write checks the owner once more.
unfoldable pub save_and_listen : Config → Registration → DeliveryTarget → Handler RegisterResponse
unfolding call
save_and_listen g registration target = do
  saved ←
      or_reject internal_server_error (bytes "Failed to save registration")
        (call (save_registration registration))
  (if saved
      then (λ s. token_of (
          start_listener g.fcm registration.install_id registration.app_id
            (config_of registration target) s))
      else refuse unauthorized (bytes "invalid credentials"))

unfoldable pub register : Config → Option Text → RegisterRequest → Handler RegisterResponse
unfolding requested_transport requested_endpoint requested_target firebase_credentials
    save_and_listen call
register g authorization req = do
  transport ← requested_transport req.transport
  endpoint ← requested_endpoint g transport req.endpoint
  target ← requested_target transport endpoint
  identity ← authorize_register g.crypto req.install_id (bearer_secret authorization)
  existing ←
      or_reject internal_server_error (bytes "Database error")
        (call (query (get_registration identity.install_id req.app_id)))
  credentials ← firebase_credentials req existing
  save_and_listen g (registration_of req identity transport endpoint credentials) target

-- The listener stops; a registration that cannot be deleted is only logged.
unfoldable pub remove_registration : Text → Text → AppState → AppState
unfolding call
remove_registration install_id app_id s =
    (call (execute (delete_registration install_id app_id)) (stop_listener install_id app_id s)).1

unfoldable pub unregister : Config → Option Text → Text → Option Text → Handler (Unit {0})
unfolding remove_registration
unregister g authorization app_id install_id = do
  owner ← authorize_unregister g.crypto install_id (bearer_secret authorization)
  modify (remove_registration owner app_id)

unfoldable pub stop_all : List (Text × Text) → AppState → AppState
stop_all [] s = s
stop_all ((install_id, app_id) ∷ pairs) s = stop_all pairs (stop_listener install_id app_id s)

abbrev pub max_silent_days : ℕ
max_silent_days = 90

abbrev pub stop_pruned : Outcome (List (Text × Text)) × AppState → AppState
stop_pruned (ok pruned, s) = stop_all pruned s
stop_pruned (failed, s) = s

-- The daily task.
unfoldable pub prune : AppState → AppState
unfolding stop_all call
prune s = stop_pruned (call (prune_stale max_silent_days) s)

-- One registration after another; an endpoint that is missing ends the program with an error.
unfoldable pub restore_all : Config → List Registration → Exec AppState (Unit {0})
restore_all g [] s = (ok tt, s)
restore_all g (reg ∷ regs) s = elim (from_parts reg.transport reg.endpoint) [
  | none ↦ (failed, s)
  | some target ↦
      restore_all g regs (start_listener g.fcm reg.install_id reg.app_id (config_of reg target) s).1
]

abbrev pub restore_found :
    Config → Outcome (List Registration) × AppState → Outcome (Unit {0}) × AppState
restore_found g (ok regs, s) = restore_all g regs s
restore_found g (failed, s) = (failed, s)

unfoldable pub restore_registrations : Config → Exec AppState (Unit {0})
unfolding restore_all call
restore_registrations g s = restore_found g (call (query list_registrations) s)
