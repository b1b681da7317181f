-- ===== src/Tests/OfPush.antt =====
-- The checks, the framing and the delivery on small inputs.
use pushcompat.Prelude.{
  ℕ, zero, suc, ◌+◌, ◌≤◌, ◌≡◌, ◌↔◌, refl, [], ◌∷◌, ◌++◌, Option, none, some, true, false, Text,
  bytes, length, ◌==◌, if◌then◌else◌, ◌=?◌, arith, split, split_once, trim, strip_prefix,
  trim_end_matches, eq_ignore_ascii_case, to_lower,
}
use pushcompat.Db.Tables.{empty_tables}
use pushcompat.Mcs.Varint.{ok, try_read_varint}
use pushcompat.Mcs.RoundTrip.{encode_varint, try_read_varint-encode_varint}
use pushcompat.Mcs.Stream.{MessageStream, done, message_of, advance, try_from, is_close}
use pushcompat.Mcs.Frames.{advance-encode_frame}
use pushcompat.Validate.{Url, domain, accepted, validate_endpoint}
use pushcompat.Validate.Accepted.{Postable, validate_endpoint_iff}
use pushcompat.Vapid
use pushcompat.Vapid.{
  Jwt, validate, read_parts, check_key, check_token, check_parts, check_signature, check_claims,
  decode_public_key, decode_key_param, url_safe, saturating_add, read_part,
}
use pushcompat.Vapid.Accepted.{Authentic, validate-Authentic}
use pushcompat.Bridge.Auth.{hash_secret, verify_secret}
use pushcompat.Bridge.Secrets.{verify_secret-hash_secret}
use pushcompat.Bridge.Delivery.{Response, status, transport_error, forward_to_up}
use pushcompat.Bridge.Retry.{first_verdict, or_gave_up, total, forward_to_up-outcome}
use pushcompat.Bridge.Push.{PushRequest, unified_push_message}
use pushcompat.Bridge.Gate.{Decided, unified_push_message-Decided}
use pushcompat.Tests.Data.{plain, plain-CryptoLaws, secret, state}

verify_secret-hash_secret_example :
    (verify_secret plain secret (hash_secret plain secret) ≡ true) ↔ (secret ≡ secret)
verify_secret-hash_secret_example = verify_secret-hash_secret plain plain-CryptoLaws secret secret

try_read_varint-encode_varint_example :
    try_read_varint (encode_varint 5 300 ++ (1 ∷ []))
    ≡ ok (some (300, length (encode_varint 5 300) + 1))
try_read_varint-encode_varint_example = try_read_varint-encode_varint 300 (1 ∷ []) (omega arith)

-- A heartbeat with a body of one byte, and the tag of the next frame.
abbrev stream : MessageStream
stream = record {
  bytes_required = 2;
  receive_buffer = 0 ∷ 1 ∷ 7 ∷ 8 ∷ [];
  last_stream_id_received = 4;
}

framed : stream.receive_buffer ≡ 0 ∷ encode_varint 5 1 ++ ((7 ∷ []) ++ (8 ∷ []))
unfolding encode_varint
framed = refl

no_close : is_close (try_from 0) ≡ false
unfolding try_from
no_close = refl

advance-encode_frame_example :
    advance {D = Text} some stream
    ≡ done
        (message_of some 0 (try_from 0) (7 ∷ []))
        (record { bytes_required = 2; receive_buffer = 8 ∷ []; last_stream_id_received = 5 })
advance-encode_frame_example =
    advance-encode_frame some 0 (7 ∷ []) (8 ∷ []) stream framed (omega arith) no_close (omega arith)

-- Every text is a host, with the scheme https.
abbrev as_host : Text → Option Url
as_host t =
    some (record { scheme = bytes "https"; username = []; password = none; host = some (domain t) })

validate_endpoint_iff_example :
    (validate_endpoint as_host (bytes "push.example") [] ≡ accepted)
    ↔ ((url : Url) × (as_host (bytes "push.example") ≡ some url) × Postable url [])
validate_endpoint_iff_example = validate_endpoint_iff as_host (bytes "push.example") []

abbrev responses : ℕ → Response
responses zero = transport_error
responses (suc n) = status 201

forward_to_up-outcome_example :
    ((forward_to_up responses).result ≡ or_gave_up (first_verdict 4 responses))
    × ((forward_to_up responses).posts ≡ suc (length (forward_to_up responses).delays))
    × (length (forward_to_up responses).delays ≤ 3)
    × (total (forward_to_up responses).delays ≤ 6500)
forward_to_up-outcome_example = forward_to_up-outcome responses

abbrev repeat : ℕ → ℕ → Text
repeat zero b = []
repeat (suc n) b = b ∷ repeat n b

-- Encodings that leave texts as they are but for the keys, and claims in every text.
abbrev key65 : Text
key65 = 4 ∷ repeat 64 0

abbrev jwt : Jwt
jwt = record {
  base64url_decode = λ b. if length b == 87 then some key65 else some b;
  from_slice = λ b.
      some (record { alg = some (bytes "ES256"); exp = some 100; aud = some (bytes "https://o") });
  is_signature = λ b. true;
  is_key = λ b. true;
  verify = λ key message signature. true;
}

abbrev stored_key : Text
stored_key = repeat 87 b'A'

abbrev header : Text
header = bytes "vapid t=h.p.s, k=" ++ stored_key

header_accepted : validate jwt (some header) stored_key (bytes "https://o/") 50 ≡ Vapid.accepted
unfolding validate read_parts check_key check_token check_parts check_signature check_claims
    decode_public_key decode_key_param url_safe saturating_add read_part ◌=?◌ split split_once trim
    strip_prefix trim_end_matches eq_ignore_ascii_case to_lower mathlib.Core.Option.bind
header_accepted = refl

validate-Authentic_example :
    (scheme rest token key : Text) × (split_once 32 header ≡ some (scheme, rest))
    × (eq_ignore_ascii_case scheme (bytes "vapid") ≡ true)
    × (read_parts (split b',' rest) (none, none) ≡ (some token, some key))
    × Authentic jwt token key stored_key (bytes "https://o/") 50
validate-Authentic_example =
    validate-Authentic jwt header stored_key (bytes "https://o/") 50 header_accepted

abbrev request : PushRequest
request = record {
  endpoint_token = bytes "endpoint";
  content_encoding = some (bytes "aes128gcm");
  authorization = some header;
  body = bytes "body";
  now = 50;
  vapid_origin = some (bytes "https://o");
  kill_file_exists = some false;
}

unified_push_message-Decided_example :
    Decided jwt request empty_tables (unified_push_message jwt request state)
unified_push_message-Decided_example = unified_push_message-Decided jwt request state
