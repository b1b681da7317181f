-- ===== src/Gcm/Session.antt =====
-- crates/listener/src/gcm.rs: the state of a device's session, how it is made, refreshed and used.
use pushcompat.Prelude.{
  ℕ, ◌^◌, List, [], ◌∷◌, Option, none, some, String, Bool, true, false, Text, ltb, leb, length,
  take,
}
use pushcompat.Gcm.Result.{
  Error, dependency_failure, protobuf_decode, request, Result, ok, err, ◌>>=◌, ◌>>◌, ok_or,
  refuse_if,
}
use pushcompat.Gcm.WebPush.{Primitives, decrypt_web_push}
use pushcompat.Gcm.Http.{Chunk, max_http_response_bytes, read_response_bytes}

-- An `i64` that no reply makes negative, and a `u64`.
pub record DeviceSessionState : Type 0 where
  pub android_id : ℕ
  pub security_token : ℕ
  pub private_key : Option Text
  pub public_key : Option Text
  pub auth_secret : Option Text

-- The encodings of the crate data_encoding.
pub record Encodings : Type 0 where
  pub base64_decode : Text → Option Text
  pub base64url_encode : Text → Text
  pub base64url_decode : Text → Option Text

abbrev pub undecryptable : String → Error
undecryptable problem = dependency_failure "FCM decryption" problem

-- `DeviceSessionState::decrypt`.
unfoldable pub decrypt : Primitives → Encodings → DeviceSessionState → Text → Result Text
unfolding decrypt_web_push
decrypt p e s encrypted_base64 = do
  private_key_b64 ← ok_or (undecryptable "no private key in session") s.private_key
  public_key_b64 ← ok_or (undecryptable "no public key in session") s.public_key
  auth_secret_b64 ← ok_or (undecryptable "no auth secret in session") s.auth_secret
  encrypted ← ok_or (undecryptable "invalid base64 payload") (e.base64_decode encrypted_base64)
  private_key ←
      ok_or (undecryptable "invalid private key base64") (e.base64url_decode private_key_b64)
  public_key ← ok_or (undecryptable "invalid public key base64") (e.base64url_decode public_key_b64)
  auth_secret ←
      ok_or (undecryptable "invalid auth secret base64") (e.base64url_decode auth_secret_b64)
  decrypt_web_push p
      (record { private_key = private_key; public_key = public_key; auth_secret = auth_secret })
      encrypted

-- The fields of the generated `AndroidCheckinResponse` that are read.
pub record CheckinResponse : Type 0 where
  pub android_id : Option ℕ
  pub security_token : Option ℕ

-- What the check-in meets: an error of the request, or a response, with whether its header says gzip.
pub data CheckinReply : Type 0 where
  unsent : CheckinReply
  replied : Bool → List Chunk → CheckinReply

-- flate2 and quick_protobuf. `gunzip` is the output, if it is valid, of which a limit is read.
pub record Decoders : Type 0 where
  pub gunzip : Text → Option Text
  pub from_reader : Text → Option CheckinResponse

abbrev pub max_decompressed_read_bytes : ℕ
max_decompressed_read_bytes = 1048577

abbrev pub checkin_api : String
checkin_api = "GCM checkin"

unfoldable pub decompressed : Decoders → Bool → Text → Result Text
decompressed d false response_bytes = ok response_bytes
decompressed d true response_bytes = do
  output ←
      ok_or (dependency_failure checkin_api "failed to decompress gzip response")
        (d.gunzip response_bytes)
  refuse_if (ltb max_http_response_bytes (length (take max_decompressed_read_bytes output)))
      (dependency_failure checkin_api "decompressed response body is too large")
  ok (take max_decompressed_read_bytes output)

abbrev pub without_keys : ℕ → ℕ → DeviceSessionState
without_keys android_id security_token = record {
  android_id = android_id;
  security_token = security_token;
  private_key = none;
  public_key = none;
  auth_secret = none;
}

-- `DeviceSessionState::request` from the reply on. `i64::try_from` refuses an id from 2^63 on.
unfoldable pub read_checkin : Decoders → CheckinReply → Result DeviceSessionState
unfolding decompressed read_response_bytes
read_checkin d unsent = err (request checkin_api)
read_checkin d (replied is_gzip chunks) = do
  response_bytes ← read_response_bytes checkin_api chunks
  decoded_bytes ← decompressed d is_gzip response_bytes
  response ← ok_or (protobuf_decode "android checkin response") (d.from_reader decoded_bytes)
  android_id ←
      ok_or (dependency_failure "Android device check-in" "response is missing android id")
        response.android_id
  refuse_if (leb (2 ^ 63) android_id)
      (dependency_failure checkin_api "responded with non-numeric android id")
  security_token ←
      ok_or (dependency_failure "Android device check-in" "response is missing security token")
        response.security_token
  ok (without_keys android_id security_token)

abbrev pub no_randomness : Error
no_randomness = dependency_failure "system randomness" "unavailable"

-- The first of the random draws that is a private key, with its public key. `exhausted` is a draw
-- that fails, and where the draws end the loop is still running.
pub data Drawn : Type 0 where
  drawn : Text → Text → Drawn
  exhausted running : Drawn

abbrev pub drawn_or : Text → Drawn → Option Text → Drawn
drawn_or b rest (some public) = drawn b public
drawn_or b rest none = rest

unfoldable pub draw_key : Primitives → List (Option Text) → Drawn
draw_key p [] = running
draw_key p (none ∷ draws) = exhausted
draw_key p (some b ∷ draws) = drawn_or b (draw_key p draws) (p.public_of b)

-- What the random source gives: fills of 32 bytes for a key, and the fill of 16 bytes after them.
pub record Randomness : Type 0 where
  pub key_draws : List (Option Text)
  pub secret_draw : Option Text

-- `none` is a loop that has not ended yet.
abbrev pub Running : Type 0
Running = Option (Result DeviceSessionState)

abbrev pub with_keys : Encodings → DeviceSessionState → Text → Text → Text → DeviceSessionState
with_keys e s private public secret = record s {
  private_key = some (e.base64url_encode private);
  public_key = some (e.base64url_encode public);
  auth_secret = some (e.base64url_encode secret);
}

abbrev pub with_secret : Encodings → DeviceSessionState → Option Text → Drawn → Running
with_secret e s none (drawn private public) = some (err no_randomness)
with_secret e s (some secret) (drawn private public) =
    some (ok (with_keys e s private public secret))
with_secret e s secret exhausted = some (err no_randomness)
with_secret e s secret running = none

unfoldable pub generate_keys : Primitives → Encodings → Randomness → DeviceSessionState → Running
unfolding draw_key
generate_keys p e r s = with_secret e s r.secret_draw (draw_key p r.key_draws)

abbrev pub then_keys : (DeviceSessionState → Running) → Result DeviceSessionState → Running
then_keys f (ok s) = f s
then_keys f (err e) = some (err e)

unfoldable pub checkin : Primitives → Encodings → Decoders → CheckinReply → Randomness → Running
unfolding read_checkin generate_keys
checkin p e d reply r = then_keys (generate_keys p e r) (read_checkin d reply)

abbrev pub same_keys : DeviceSessionState → DeviceSessionState → DeviceSessionState
same_keys old s = record s {
  private_key = old.private_key;
  public_key = old.public_key;
  auth_secret = old.auth_secret;
}

-- The keys of the earlier session, if it had any, or new ones.
abbrev pub kept_keys :
    Option Text → DeviceSessionState → (DeviceSessionState → Running) → DeviceSessionState → Running
kept_keys (some key) old generate s = some (ok (same_keys old s))
kept_keys none old generate s = generate s

unfoldable pub refresh :
    Primitives → Encodings → Decoders → CheckinReply → Randomness → DeviceSessionState → Running
unfolding read_checkin generate_keys
refresh p e d reply r s =
    then_keys (kept_keys s.private_key s (generate_keys p e r)) (read_checkin d reply)
