-- ===== src/Gcm/Registration.antt =====
-- crates/listener/src/gcm.rs and crates/listener/src/session.rs: the registration of an app, and the
-- login to the stream.
use pushcompat.Prelude.{
  unwrap_or, ℕ, ◌%◌, List, [], ◌∷◌, ◌++◌, Option, String, Bool, not, ◌&&◌, ◌||◌, Text, bytes, any,
  ltb, leb, ◌==◌, length, take, drop, if◌then◌else◌,
}
use pushcompat.Prelude.Int.{ℤ, pos}
use pushcompat.Gcm.Result.{
  Error, dependency_failure, dependency_rejection, request, Result, ok, err, ◌>>=◌, ◌>>◌, ok_or,
  refuse_if,
}
use pushcompat.Gcm.Http.{Chunk, Posted, read_response_text, register}
use pushcompat.Gcm.Session.{DeviceSessionState, no_randomness}

pub record FcmCredentials : Type 0 where
  pub sender_id : Text
  pub api_key : Text
  pub app_id : Text
  pub project_id : Text
  pub package_name : Text
  pub cert_sha1 : Option Text
  pub app_version : Option ℤ
  pub app_version_name : Option Text
  pub target_sdk : Option ℤ

pub record FirebaseInstallation : Type 0 where
  pub fid : Text
  pub auth_token : Text
  pub refresh_token : Text

-- Library functions: `to_string` of an integer, `urlencoding::encode`, lower case, base64url, `from_utf8`, the
-- three strings of the JSON of a response, if it is JSON at all, and the first characters of a text.
pub record Formats : Type 0 where
  pub to_string : ℤ → Text
  pub url_encode : Text → Text
  pub to_lowercase : Text → Text
  pub base64url_encode : Text → Text
  pub is_utf8 : Text → Bool
  pub from_json : Text → Option (Option Text × Option Text × Option Text)
  pub chars : ℕ → Text → Text
  pub show_status : ℕ → Text

abbrev pub installations_api : String
installations_api = "Firebase Installations"

abbrev pub first_char : ℕ → ℕ
first_char r = if r == 0 then b'c' else if r == 1 then b'd' else if r == 2 then b'e' else b'f'

-- The id of an installation from 17 random bytes: `& 0x0F` is the remainder by 16.
unfoldable pub fid_of : Formats → Text → Result Text
fid_of f [] = err (dependency_failure installations_api "failed to generate FID")
fid_of f (b ∷ bs) = ok (first_char (b % 16 % 4) ∷ drop 1 (take 22 (f.base64url_encode (b ∷ bs))))

abbrev pub is_success : ℕ → Bool
is_success status = leb 200 status && ltb status 300

abbrev pub missing : String → Error
missing problem = dependency_failure installations_api problem

-- The reply to the post of an installation, by its status and its text.
unfoldable pub read_installation : Formats → ℕ → Text → Result FirebaseInstallation
read_installation f status text = do
  refuse_if (not (is_success status)) (
      dependency_rejection installations_api
        (bytes "HTTP " ++ (f.show_status status ++ (bytes ": " ++ f.chars 200 text))))
  (fid, auth_token, refresh_token) ← ok_or (missing "invalid JSON response") (f.from_json text)
  fid ← ok_or (missing "missing fid in response") fid
  auth_token ← ok_or (missing "missing authToken in response") auth_token
  refresh_token ← ok_or (missing "missing refreshToken in response") refresh_token
  ok (record { fid = fid; auth_token = auth_token; refresh_token = refresh_token })

-- What the post of an installation meets. `fid_bytes` is the random fill before it.
pub data Installed : Type 0 where
  unposted : Installed
  replied : ℕ → List Chunk → Installed

unfoldable pub register_firebase_installation :
    Formats → Option Text → Installed → Result FirebaseInstallation
unfolding fid_of read_installation read_response_text
register_firebase_installation f fid_bytes unposted = do
  filled ← ok_or no_randomness fid_bytes
  fid ← fid_of f filled
  err (request installations_api)
register_firebase_installation f fid_bytes (replied status chunks) = do
  filled ← ok_or no_randomness fid_bytes
  fid ← fid_of f filled
  text ← read_response_text f.is_utf8 installations_api chunks
  read_installation f status text

-- `key=value` pairs, joined by `&`.
unfoldable pub form : Formats → List (Text × Text) → Text
form f [] = []
form f ((k, v) ∷ []) = k ++ (b'=' ∷ f.url_encode v)
form f ((k, v) ∷ pair ∷ pairs) =
    let rest = form f (pair ∷ pairs) in k ++ (b'=' ∷ (f.url_encode v ++ (b'&' ∷ rest)))

-- The form of `register` as `AppRegistration::register` calls it, with an installation.
unfoldable pub form_body :
    Formats → DeviceSessionState → FcmCredentials → FirebaseInstallation → Text
unfolding form
form_body f s c fis = form f (
    (bytes "app", c.package_name)
    ∷ (bytes "device", f.to_string (pos s.android_id))
    ∷ (bytes "sender", c.sender_id)
    ∷ (bytes "cert", f.to_lowercase (unwrap_or c.cert_sha1 []))
    ∷ (bytes "app_ver", f.to_string (unwrap_or c.app_version (pos 1)))
    ∷ (bytes "target_ver", f.to_string (unwrap_or c.target_sdk (pos 34)))
    ∷ (bytes "X-appid", fis.fid)
    ∷ (bytes "X-Goog-Firebase-Installations-Auth", fis.auth_token)
    ∷ (bytes "X-cliv", bytes "fiid-21.0.0")
    ∷ (bytes "X-scope", bytes "*")
    ∷ (bytes "X-subtype", c.sender_id)
    ∷ (bytes "X-gmp_app_id", c.app_id)
    ∷ (bytes "X-Firebase-Client", bytes "fire-installations/17.0.0")
    ∷ (bytes "X-app_ver_name", unwrap_or c.app_version_name (bytes "1.0.0"))
    ∷ (bytes "encryption_key", unwrap_or s.public_key [])
    ∷ (bytes "encryption_auth", unwrap_or s.auth_secret [])
    ∷ [])

pub record AppRegistrationState : Type 0 where
  pub fcm_token : Text
  pub credentials : FcmCredentials

-- `AppRegistration::register`, by what its posts meet; `posted` has the responses to the form.
unfoldable pub app_register :
    Formats
    → Option Text
    → Installed
    → (Text → ℕ → Posted)
    → DeviceSessionState
    → FcmCredentials
    → Result AppRegistrationState
unfolding register_firebase_installation form_body register
app_register f fid_bytes installed posted s c = do
  fis ← register_firebase_installation f fid_bytes installed
  token ← (register f.is_utf8 (posted (form_body f s c fis))).0
  ok (record { fcm_token = token; credentials = c })

abbrev pub max_persistent_ids : ℕ
max_persistent_ids = 500

abbrev pub max_persistent_id_bytes : ℕ
max_persistent_id_bytes = 4096

abbrev pub is_too_long : Text → Bool
is_too_long id = ltb max_persistent_id_bytes (length id)

abbrev pub invalid_history : Error
invalid_history = dependency_failure "MCS login" "persistent id history is invalid"

-- The guard of `connect`.
unfoldable pub check_history : List Text → Result (Unit {0})
check_history ids =
    refuse_if (ltb max_persistent_ids (length ids) || any is_too_long ids) invalid_history

-- The generated `LoginRequest`, with the fields that depend on the session or the ids; the others
-- are constants. `write_message` is its length and its bytes.
pub record LoginRequest : Type 0 where
  pub auth_token : ℕ
  pub device_id : ℕ
  pub resource : ℕ
  pub user : ℕ
  pub received_persistent_id : List Text

unfoldable pub new_mcs_login_request : DeviceSessionState → List Text → LoginRequest
new_mcs_login_request s ids = record {
  auth_token = s.security_token;
  device_id = s.android_id;
  resource = s.android_id;
  user = s.android_id;
  received_persistent_id = ids;
}

-- The bytes that `connect` sends: the version, the tag of a login, and the request.
unfoldable pub login_bytes :
    (LoginRequest → Option Text) → DeviceSessionState → List Text → Result Text
unfolding check_history new_mcs_login_request
login_bytes write_message s ids = do
  check_history ids
  message ←
      ok_or (dependency_failure "MCS login" "failed to serialize request")
        (write_message (new_mcs_login_request s ids))
  ok (41 ∷ 2 ∷ message)
