-- ===== src/Bridge/State.antt =====
-- crates/bridge/src/main.rs: `AppState`, and what a handler replies.
use pushcompat.Prelude.Int.{ℤ}
use pushcompat.Prelude.{
  ℕ, ◌+◌, List, [], ◌∷◌, Option, none, some, Bool, true, false, Text, bytes, ◌=?◌, if◌then◌else◌,
}
use pushcompat.Exec.{Outcome, ok, failed, Exec}
use pushcompat.Db.Tables.{Tables}
use pushcompat.Socket.{SocketHub}

pub data DeliveryTarget : Type 0 where
  unified_push : Text → DeliveryTarget
  web_socket : DeliveryTarget

pub record ListenerConfig : Type 0 where
  pub firebase_app_id : Text
  pub firebase_project_id : Text
  pub firebase_api_key : Text
  pub cert_sha1 : Option Text
  pub app_version : Option ℤ
  pub app_version_name : Option Text
  pub target_sdk : Option ℤ
  pub target : DeliveryTarget

-- `task` names the spawned task that runs the listener.
pub record ListenerHandle : Type 0 where
  pub install_id : Text
  pub app_id : Text
  pub fcm_token : Text
  pub config : ListenerConfig
  pub task : ℕ

-- `listeners` is the map of the FCM manager, `running` the tasks that it has spawned and not
-- aborted. `up_wake` is the permit that a `Notify` stores. `faults` says which of the database
-- calls to come fail.
pub record AppState : Type 0 where
  pub tables : Tables
  pub faults : List Bool
  pub hub : SocketHub
  pub up_wake : Bool
  pub listeners : List ListenerHandle
  pub running : List ℕ
  pub next_task : ℕ
  pub vapid_accepted : ℕ
  pub vapid_rejected : List (Text × ℕ)

abbrev pub call_with {ℓ} :
    {A : Type ℓ} → (Tables → A × Tables) → AppState → List Bool → Outcome A × AppState
call_with f s [] = let (a, t) = f s.tables in (ok a, record s { tables = t })
call_with f s (true ∷ faults) = (failed, record s { faults = faults })
call_with f s (false ∷ faults) =
    let (a, t) = f s.tables in (ok a, record s { tables = t; faults = faults })

-- `conn.call`: the statements run, or they fail and change nothing.
unfoldable pub call : {A : Type 0} → (Tables → A × Tables) → Exec AppState A
call f s = call_with f s s.faults

abbrev pub query : {A : Type 0} → (Tables → A) → Tables → A × Tables
query f t = (f t, t)

abbrev pub execute : (Tables → Tables) → Tables → Unit {0} × Tables
execute f t = (tt, f t)

pub data StatusCode : Type 0 where
  created no_content bad_request unauthorized forbidden not_found conflict : StatusCode
  payload_too_large unsupported_media_type internal_server_error : StatusCode

pub data Reply (A : Type 0) : Type 0 where
  reply : A → Reply A
  reject : StatusCode → Text → Reply A

abbrev pub Handler : Type 0 → Type 0
Handler A = AppState → Reply A × AppState

abbrev pub continue : {A B : Type 0} → (A → Handler B) → Reply A × AppState → Reply B × AppState
continue f (reply a, s) = f a s
continue f (reject status reason, s) = (reject status reason, s)

infixl 5 ◌>>=◌ ◌>>◌
abbrev pub ◌>>=◌ : {A B : Type 0} → Handler A → (A → Handler B) → Handler B
◌>>=◌ m f s = continue f (m s)

abbrev pub ◌>>◌ : {B : Type 0} → Handler (Unit {0}) → Handler B → Handler B
m >> k = m >>= λ _. k

abbrev pub respond : {A : Type 0} → A → Handler A
respond a s = (reply a, s)

abbrev pub refuse : {A : Type 0} → StatusCode → Text → Handler A
refuse status reason s = (reject status reason, s)

abbrev pub modify : (AppState → AppState) → Handler (Unit {0})
modify f s = (reply tt, f s)

abbrev pub lift_reply : {A : Type 0} → StatusCode → Text → Outcome A × AppState → Reply A × AppState
lift_reply status reason (ok a, s) = (reply a, s)
lift_reply status reason (failed, s) = (reject status reason, s)

-- `map_err` to a status and a text.
abbrev pub or_reject : {A : Type 0} → StatusCode → Text → Exec AppState A → Handler A
or_reject status reason m s = lift_reply status reason (m s)

-- `map_err(internal)` and `map_err(database_error)`.
abbrev pub db_call : {A : Type 0} → (Tables → A × Tables) → Handler A
db_call f = or_reject internal_server_error (bytes "database error") (call f)

unfoldable pub enforcing_origin : Option Text → Option Bool → Option Text
enforcing_origin origin (some true) = none
enforcing_origin origin (some false) = origin
enforcing_origin origin none = origin

-- `*entry(reason).or_default() += 1`.
unfoldable pub record_reason : Text → List (Text × ℕ) → List (Text × ℕ)
record_reason reason [] = (reason, 1) ∷ []
record_reason reason ((r, n) ∷ counts) =
    let rest = record_reason reason counts in
    if r =? reason then (r, n + 1) ∷ counts else (r, n) ∷ rest
