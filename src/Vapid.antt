-- ===== src/Vapid.antt =====
-- crates/bridge/src/vapid.rs: the check of a web push sender's `vapid` header.
pub mod Accepted
use mathlib.Core.Option
use pushcompat.Prelude.{
  ℕ, suc, ◌+◌, ◌-◌, ◌*◌, ◌^◌, List, [], ◌∷◌, ◌++◌, Option, none, some, Bool, true, false, not, ◌&&◌,
  Text, bytes, ◌=?◌, ◌=??◌, ◌==◌, ltb, length, map, if◌then◌else◌, split, split_once, strip_prefix,
  trim, trim_end_matches, eq_ignore_ascii_case,
}

abbrev pub vapid_key_b64_len : ℕ
vapid_key_b64_len = 87

abbrev pub max_exp_ahead_secs : ℕ
max_exp_ahead_secs = 86400

abbrev pub clock_skew_secs : ℕ
clock_skew_secs = 300

pub data VapidRejection : Type 0 where
  missing_header malformed_header key_mismatch bad_token bad_signature : VapidRejection
  expired too_far_ahead bad_audience : VapidRejection

pub data Checked : Type 0 where
  accepted : Checked
  rejected : VapidRejection → Checked

-- `as_str`: the counter's key.
unfoldable pub as_str : VapidRejection → Text
as_str missing_header = bytes "missing_header"
as_str malformed_header = bytes "malformed_header"
as_str key_mismatch = bytes "key_mismatch"
as_str bad_token = bytes "bad_token"
as_str bad_signature = bytes "bad_signature"
as_str expired = bytes "expired"
as_str too_far_ahead = bytes "too_far_ahead"
as_str bad_audience = bytes "bad_audience"

-- A JSON value, by the members that the check reads: a string `alg`, a u64 `exp`, a string `aud`.
pub record Claims : Type 0 where
  pub alg : Option Text
  pub exp : Option ℕ
  pub aud : Option Text

-- data_encoding's BASE64URL_NOPAD, `serde_json::from_slice`, and p256's signatures and keys.
pub record Jwt : Type 0 where
  pub base64url_decode : Text → Option Text
  pub from_slice : Text → Option Claims
  pub is_signature : Text → Bool
  pub is_key : Text → Bool
  -- key, message, signature
  pub verify : Text → Text → Text → Bool

abbrev is_uncompressed : Text → Bool
is_uncompressed [] = false
is_uncompressed (b ∷ bs) = b == 4 && length bs == 64

-- A point in 65 bytes, which begin with 4.
abbrev uncompressed_point : Text → Option Text
uncompressed_point key = if is_uncompressed key then some key else none

unfoldable pub decode_public_key : Jwt → Text → Option Text
decode_public_key j b64 =
    if length b64 == vapid_key_b64_len
    then Option.bind (j.base64url_decode b64) uncompressed_point
    else none

unfoldable pub url_safe : ℕ → ℕ
url_safe c = if c == b'+' then b'-' else if c == b'/' then b'_' else c

-- Padding and the standard alphabet are accepted.
unfoldable pub decode_key_param : Jwt → Text → Option Text
unfolding url_safe
decode_key_param j b64 =
    Option.bind (j.base64url_decode (map url_safe (trim_end_matches (λ c. c == b'=') b64)))
      uncompressed_point

-- One part of the header's list; the last `t=` and the last `k=` count.
unfoldable pub read_part : Text → Option Text × Option Text → Option Text × Option Text
read_part part (token, key) = elim (strip_prefix (bytes "t=") part) [
  | some value ↦ (some value, key)
  | none ↦ elim (strip_prefix (bytes "k=") part) [
    | some value ↦ (token, some value)
    | none ↦ (token, key)
  ]
]

unfoldable pub read_parts : List Text → Option Text × Option Text → Option Text × Option Text
unfolding read_part
read_parts [] found = found
read_parts (part ∷ parts) found = read_parts parts (read_part (trim part) found)

-- `saturating_add` on u64.
unfoldable pub saturating_add : ℕ → ℕ → ℕ
saturating_add a b = if ltb (a + b) (2 ^ 64) then a + b else 2 ^ 64 - 1

abbrev pub trim_slashes : Text → Text
trim_slashes s = trim_end_matches (λ c. c == b'/') s

-- The times and the audience of claims whose signature was good.
unfoldable pub check_claims : Claims → Text → ℕ → Checked
unfolding saturating_add
check_claims claims public_origin now = elim claims.exp [
  | none ↦ rejected bad_token
  | some exp ↦
      if ltb (saturating_add exp clock_skew_secs) now
      then rejected expired
      else if ltb (saturating_add (saturating_add now max_exp_ahead_secs) clock_skew_secs) exp
      then rejected too_far_ahead
      else elim claims.aud [
        | none ↦ rejected bad_token
        | some aud ↦
            if trim_slashes aud =? trim_slashes public_origin
            then accepted
            else rejected bad_audience
      ]
]

-- The signature is over the first two parts as they were sent.
unfoldable pub check_signature : Jwt → Text → Text → Text → Text → Claims → Text → ℕ → Checked
unfolding check_claims
check_signature j key header_b64 payload_b64 signature claims public_origin now =
    if not (j.is_signature signature)
    then rejected bad_token
    else if not (j.is_key key)
    then rejected key_mismatch
    else if j.verify key (header_b64 ++ (b'.' ∷ payload_b64)) signature
    then check_claims claims public_origin now
    else rejected bad_signature

abbrev pub decode_json : Jwt → Text → Option Claims
decode_json j b64 = Option.bind (j.base64url_decode b64) j.from_slice

unfoldable pub check_parts : Jwt → Text → Text → Text → Text → Text → ℕ → Checked
unfolding check_signature
check_parts j key header_b64 payload_b64 signature_b64 public_origin now =
    elim (decode_json j header_b64) [
      | none ↦ rejected bad_token
      | some jwt_header ↦
          if not (jwt_header.alg =?? some (bytes "ES256"))
          then rejected bad_token
          else elim (decode_json j payload_b64) [
            | none ↦ rejected bad_token
            | some claims ↦ elim (j.base64url_decode signature_b64) [
              | none ↦ rejected bad_token
              | some signature ↦
                  check_signature j key header_b64 payload_b64 signature claims public_origin now
            ]
          ]
    ]

-- `splitn(3, '.')`: what follows the second dot is the signature, dots and all.
unfoldable pub check_token : Jwt → Text → Text → Text → ℕ → Checked
unfolding check_parts
check_token j key token public_origin now = elim (split_once b'.' token) [
  | none ↦ rejected bad_token
  | some (header_b64, rest) ↦ elim (split_once b'.' rest) [
    | none ↦ rejected bad_token
    | some (payload_b64, signature_b64) ↦
        check_parts j key header_b64 payload_b64 signature_b64 public_origin now
  ]
]

unfoldable pub check_key : Jwt → Text → Text → Text → Text → ℕ → Checked
unfolding decode_public_key decode_key_param check_token
check_key j token key stored_key_b64 public_origin now = elim (decode_public_key j stored_key_b64) [
  | none ↦ rejected key_mismatch
  | some key_bytes ↦
      if decode_key_param j key =?? some key_bytes
      then check_token j key_bytes token public_origin now
      else rejected key_mismatch
]

abbrev pub check_zip : Jwt → Option Text × Option Text → Text → Text → ℕ → Checked
check_zip j (some token, some key) stored public_origin now =
    check_key j token key stored public_origin now
check_zip j (_, _) stored public_origin now = rejected malformed_header

unfoldable pub validate : Jwt → Option Text → Text → Text → ℕ → Checked
unfolding read_parts check_key
validate j none stored_key_b64 public_origin now = rejected missing_header
validate j (some header) stored_key_b64 public_origin now = elim (split_once 32 header) [
  | none ↦ rejected malformed_header
  | some (scheme, rest) ↦
      if eq_ignore_ascii_case scheme (bytes "vapid")
      then check_zip j (read_parts (split b',' rest) (none, none)) stored_key_b64 public_origin now
      else rejected malformed_header
]
