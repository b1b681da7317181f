-- ===== src/Bridge/Push.antt =====
-- crates/bridge/src/main.rs: `unified_push_message`, the endpoint that web push senders post to.
use pushcompat.Prelude.{
  ℕ, suc, Option, none, some, Bool, false, not, ◌||◌, Text, bytes, ◌==◌, length, ltb, if◌then◌else◌,
  eq_ignore_ascii_case,
}
use pushcompat.Vapid.{Jwt, Checked, VapidRejection, validate, as_str}
use pushcompat.Vapid
use pushcompat.Db.Tables.{UnifiedPushRegistration}
use pushcompat.Db.Connectors.{get_unified_push_endpoint}
use pushcompat.Bridge.State.{
  AppState, Handler, StatusCode, created, forbidden, not_found, payload_too_large,
  unsupported_media_type, internal_server_error, respond, refuse, modify, or_reject, call, query,
  db_call, record_reason, enforcing_origin, ◌>>=◌, ◌>>◌,
}
use pushcompat.Bridge.Delivery.{enqueue_unified_push}

-- The headers, the system's time, and the settings for VAPID at the time of the request.
pub record PushRequest : Type 0 where
  pub endpoint_token : Text
  pub content_encoding : Option Text
  pub authorization : Option Text
  pub body : Text
  pub now : ℕ
  pub vapid_origin : Option Text
  pub kill_file_exists : Option Bool

abbrev pub max_body : ℕ
max_body = 4096

abbrev pub count_rejection : Text → AppState → AppState
count_rejection reason s = record s { vapid_rejected = record_reason reason s.vapid_rejected }

abbrev pub count_accepted : AppState → AppState
count_accepted s = record s { vapid_accepted = suc s.vapid_accepted }

abbrev pub is_aes128gcm : Option Text → Bool
is_aes128gcm none = false
is_aes128gcm (some value) = eq_ignore_ascii_case value (bytes "aes128gcm")

abbrev pub vapid_outcome : Checked → Handler (Unit {0})
vapid_outcome Vapid.accepted = modify count_accepted
vapid_outcome (Vapid.rejected rejection) = do
  modify (count_rejection (as_str rejection))
  refuse forbidden (as_str rejection)

-- The checks on a message for a registration that has a key, while an origin is enforced.
unfoldable pub check_web_push : Jwt → PushRequest → Text → Text → Handler (Unit {0})
check_web_push j req stored_key origin =
    if not (is_aes128gcm req.content_encoding)
    then (do
      modify (count_rejection (bytes "bad_encoding"))
      refuse unsupported_media_type (bytes "web push requires Content-Encoding: aes128gcm"))
    else vapid_outcome (validate j req.authorization stored_key origin req.now)

abbrev pub check_if_keyed : Jwt → PushRequest → Option Text → Option Text → Handler (Unit {0})
check_if_keyed j req (some stored_key) (some origin) = check_web_push j req stored_key origin
check_if_keyed j req (some stored_key) none = respond tt
check_if_keyed j req none origin = respond tt

abbrev pub or_not_found : Option UnifiedPushRegistration → Handler UnifiedPushRegistration
or_not_found (some registration) = respond registration
or_not_found none = refuse not_found (bytes "endpoint not found")

unfoldable pub push_to : Jwt → PushRequest → UnifiedPushRegistration → Handler StatusCode
unfolding check_web_push enforcing_origin
push_to j req registration = do
  check_if_keyed j req registration.vapid_pubkey
      (enforcing_origin req.vapid_origin req.kill_file_exists)
  _ ← or_reject internal_server_error (bytes "database error") (
      enqueue_unified_push registration.install_id registration.app_id registration.connector_token
        req.body)
  respond created

unfoldable pub unified_push_message : Jwt → PushRequest → Handler StatusCode
unfolding push_to call
unified_push_message j req =
    if length req.body == 0 || ltb max_body (length req.body)
    then refuse payload_too_large (bytes "UnifiedPush messages must contain 1 to 4096 bytes")
    else do
      found ← db_call (query (get_unified_push_endpoint req.endpoint_token))
      registration ← or_not_found found
      push_to j req registration
