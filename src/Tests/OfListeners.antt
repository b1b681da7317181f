-- ===== src/Tests/OfListeners.antt =====
-- crates/bridge/src/fcm.rs, crates/bridge/src/auth.rs: listeners and owners on small inputs.
use pushcompat.Prelude.{ℕ, ◌+◌, ◌≡◌, refl, List, [], ◌∷◌, none, some, Text, bytes, ◌=?◌, =?_iff}
use pushcompat.Bridge.State.{AppState, reply, ListenerConfig, web_socket}
use pushcompat.Bridge.Listeners.{FcmService}
use pushcompat.Bridge.Tasks.{TasksInv}
use pushcompat.Bridge.Starting.{Request, start, stop, manage, manage-TasksInv}
use pushcompat.Gcm.RoundTrip.{zeros}
use pushcompat.Types.InstallId
use pushcompat.Db.Installations.{claim_installation, stored_hash}
use pushcompat.Crypto.{Crypto, DigestLaws}
use pushcompat.Bridge.Auth.{authorize_register, authorize_unregister}
use pushcompat.Bridge.Ownership.{
  Authorized, Verified, authorize_register-Authorized, authorize_unregister-Verified,
}
use pushcompat.Tests.Data.{plain, install, app, secret, state}

abbrev config : ListenerConfig
config = record {
  firebase_app_id = bytes "1:123:android:ab";
  firebase_project_id = bytes "project";
  firebase_api_key = bytes "key";
  cert_sha1 = none;
  app_version = none;
  app_version_name = none;
  target_sdk = none;
  target = web_socket;
}

abbrev service : FcmService
service = record {
  register_app = λ credentials. some (record {
    gcm_session = bytes "session";
    gcm_token = bytes "token";
    credentials = credentials;
  });
  from_str = λ t. none;
  to_string = λ r. some (bytes "json");
}

abbrev requests : List Request
requests =
    start install app config
    ∷ start install app (record config { cert_sha1 = some (bytes "sha") })
    ∷ start install (bytes "other") config
    ∷ stop install app
    ∷ []

state-TasksInv : TasksInv state
state-TasksInv = record { keys = tt; tasks = tt; spawned = tt; running = refl }

manage-TasksInv_example : TasksInv (manage service requests state)
manage-TasksInv_example = manage-TasksInv service requests state state-TasksInv

authorize_register-Authorized_example :
    Authorized plain
      (some install)
      (some secret)
      state.tables
      (authorize_register plain (some install) (some secret) state)
authorize_register-Authorized_example =
    authorize_register-Authorized plain (some install) (some secret) state

-- Digests of the right length: a sum, and zeros.
abbrev sum : Text → ℕ
sum [] = 0
sum (b ∷ bs) = b + sum bs

abbrev digesting : Crypto
digesting = record plain { sha256 = λ b. sum b ∷ zeros 31 }

digesting-DigestLaws : DigestLaws digesting
digesting-DigestLaws = record {
  length-sha256 = λ b. refl;
  hex_decode-empty = refl;
  ct_eq_iff = =?_iff;
}

-- After a registration.
abbrev registered : AppState
registered = (authorize_register digesting (some install) (some secret) state).1

unregistered :
    (authorize_unregister digesting (some install) (some secret) registered).0 ≡ reply install
unfolding authorize_register authorize_unregister ◌=?◌ InstallId.try_from claim_installation
    stored_hash
unregistered = refl

authorize_unregister-Verified_example :
    Verified digesting
      (some install)
      (some secret)
      registered.tables
      (authorize_unregister digesting (some install) (some secret) registered)
authorize_unregister-Verified_example =
    authorize_unregister-Verified digesting (some install) (some secret) registered
      digesting-DigestLaws
