-- ===== src/Bridge/Listeners.antt =====
-- crates/bridge/src/fcm.rs: the map of listeners of `FcmManager`, and the tasks that they stand for.
use pushcompat.Prelude.Int.{ℤ, same_integer}
use pushcompat.Prelude.{
  ℕ, suc, [], ◌∷◌, ◌++◌, Option, none, some, Bool, true, false, ◌&&◌, Text, ◌=?◌, ◌=??◌, ◌==◌, find,
  delete, length, if◌then◌else◌,
}
use pushcompat.Exec.{Outcome, ok, failed, Exec}
use pushcompat.Db.Tables.{is_pair}
use pushcompat.Db.Registrations.{get_fcm_session, save_fcm_session}
use pushcompat.Fcm.Sender.{extract_sender_id}
use pushcompat.Bridge.State.{
  AppState, DeliveryTarget, unified_push, web_socket, ListenerConfig, ListenerHandle, call, query,
  execute,
}

pub record FcmCredentials : Type 0 where
  pub sender_id : Text
  pub api_key : Text
  pub app_id : Text
  pub project_id : Text
  pub package_name : Text
  pub cert_sha1 : Option Text
  pub app_version : Option ℤ
  pub app_version_name : Option Text
  pub target_sdk : Option ℤ

-- `StoredFcmRegistration`; the session of the device is a value that only the listener reads.
pub record StoredFcmRegistration : Type 0 where
  pub gcm_session : Text
  pub gcm_token : Text
  pub credentials : FcmCredentials

-- `register_app`, which talks to Google, and serde_json.
pub record FcmService : Type 0 where
  pub register_app : FcmCredentials → Option StoredFcmRegistration
  pub from_str : Text → Option StoredFcmRegistration
  pub to_string : StoredFcmRegistration → Option Text

abbrev pub same_number : Option ℤ → Option ℤ → Bool
same_number none none = true
same_number none (some n) = false
same_number (some m) none = false
same_number (some m) (some n) = same_integer m n

abbrev pub same_target : DeliveryTarget → DeliveryTarget → Bool
same_target (unified_push e) (unified_push f) = e =? f
same_target (unified_push e) web_socket = false
same_target web_socket (unified_push f) = false
same_target web_socket web_socket = true

-- `PartialEq` of `ListenerConfig`.
unfoldable pub same_config : ListenerConfig → ListenerConfig → Bool
same_config a b =
    (a.firebase_app_id =? b.firebase_app_id
      && (a.firebase_project_id =? b.firebase_project_id
          && a.firebase_api_key =? b.firebase_api_key))
    && ((a.cert_sha1 =?? b.cert_sha1 && same_number a.app_version b.app_version)
        && (a.app_version_name =?? b.app_version_name
            && (same_number a.target_sdk b.target_sdk && same_target a.target b.target)))

unfoldable pub is_listener : Text → Text → ListenerHandle → Bool
is_listener install_id app_id handle = is_pair install_id app_id handle.install_id handle.app_id

unfoldable pub active_count : AppState → ℕ
active_count s = length s.listeners

-- The token of a listener that runs with just this configuration.
unfoldable pub running_token : Text → Text → ListenerConfig → AppState → Option Text
unfolding is_listener same_config
running_token install_id app_id config s = elim (find (is_listener install_id app_id) s.listeners) [
  | none ↦ none
  | some handle ↦ if same_config handle.config config then some handle.fcm_token else none
]

-- The handle leaves the map, and its task is aborted.
unfoldable pub stop_listener : Text → Text → AppState → AppState
unfolding is_listener
stop_listener install_id app_id s = elim (find (is_listener install_id app_id) s.listeners) [
  | none ↦ s
  | some handle ↦ record s {
    listeners = delete (is_listener install_id app_id) s.listeners;
    running = delete (λ task. task == handle.task) s.running;
  }
]

-- A task is spawned, and its handle put into the map.
unfoldable pub spawn_listener : Text → Text → Text → ListenerConfig → AppState → AppState
spawn_listener install_id app_id fcm_token config s = record s {
  listeners = s.listeners ++ handle ∷ [];
  running = s.running ++ s.next_task ∷ [];
  next_task = suc s.next_task;
}
  where
    handle : ListenerHandle
    handle = record {
      install_id = install_id;
      app_id = app_id;
      fcm_token = fcm_token;
      config = config;
      task = s.next_task;
    }

abbrev pub credentials_of : Text → Text → ListenerConfig → FcmCredentials
credentials_of sender_id app_id config = record {
  sender_id = sender_id;
  api_key = config.firebase_api_key;
  app_id = config.firebase_app_id;
  project_id = config.firebase_project_id;
  package_name = app_id;
  cert_sha1 = config.cert_sha1;
  app_version = config.app_version;
  app_version_name = config.app_version_name;
  target_sdk = config.target_sdk;
}

-- A saved session is used if it can be read; otherwise the app is registered anew. A failed
-- query counts as no session.
unfoldable pub stored_or_registered :
    FcmService → FcmCredentials → Outcome (Option Text) → Option StoredFcmRegistration
stored_or_registered f credentials (ok (some session_json)) = elim (f.from_str session_json) [
  | some existing ↦ some existing
  | none ↦ f.register_app credentials
]
stored_or_registered f credentials (ok none) = f.register_app credentials
stored_or_registered f credentials failed = f.register_app credentials

-- `let _ = db.save_fcm_session(..)`: a failure is ignored.
unfoldable pub save_session : FcmService → Text → Text → StoredFcmRegistration → AppState → AppState
unfolding call
save_session f install_id app_id stored s = elim (f.to_string stored) [
  | none ↦ s
  | some json ↦ (call (execute (save_fcm_session install_id app_id json)) s).1
]

unfoldable pub finish_start :
    FcmService → Text → Text → ListenerConfig → Option StoredFcmRegistration → Exec AppState Text
unfolding save_session spawn_listener
finish_start f install_id app_id config none s = (failed, s)
finish_start f install_id app_id config (some stored) s = (
  ok stored.gcm_token,
  spawn_listener install_id app_id stored.gcm_token config
      (save_session f install_id app_id stored s),
)

-- A listener that has to be started: the old one goes first, whatever comes of the new one.
unfoldable pub restart_listener : FcmService → Text → Text → ListenerConfig → Exec AppState Text
unfolding stop_listener stored_or_registered finish_start call
restart_listener f install_id app_id config s =
    let stopped = stop_listener install_id app_id s in
    elim (extract_sender_id config.firebase_app_id) [
      | none ↦ (failed, stopped)
      | some sender_id ↦
          let (session, s') = call (query (get_fcm_session install_id app_id)) stopped in
          finish_start f install_id app_id config
            (stored_or_registered f (credentials_of sender_id app_id config) session) s'
    ]

unfoldable pub start_listener : FcmService → Text → Text → ListenerConfig → Exec AppState Text
unfolding running_token restart_listener
start_listener f install_id app_id config s = elim (running_token install_id app_id config s) [
  | some token ↦ (ok token, s)
  | none ↦ restart_listener f install_id app_id config s
]
