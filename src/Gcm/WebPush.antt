-- ===== src/Gcm/WebPush.antt =====
-- crates/listener/src/gcm.rs: `decrypt_web_push`, a body of RFC 8188 with one record. The tests of
-- the source for slices that its length check has already granted are left out, and so is that of
-- the lengths of the derived key and nonce, which are arrays there.
use pushcompat.Prelude.{
  ℕ, ◌+◌, ◌*◌, [], ◌∷◌, ◌++◌, Option, String, Bool, not, ◌||◌, Text, bytes, ◌=?◌, ◌==◌, leb, ltb,
  length, take, drop, reverse, trim_start_matches, if◌then◌else◌,
}
use pushcompat.Gcm.Result.{
  Error, dependency_failure, Result, ok, err, ◌>>=◌, ◌>>◌, ok_or, refuse_if,
}

-- The crates p256, hkdf and aes_gcm. `public_of` is the uncompressed public key of a private key, if
-- that is valid.
pub record Primitives : Type 0 where
  pub public_of : Text → Option Text
  pub is_public_key : Text → Bool
  pub diffie_hellman : Text → Text → Text
  -- salt, key material, info and length
  pub hkdf_expand : Text → Text → Text → ℕ → Option Text
  -- key, nonce and ciphertext
  pub gcm_decrypt : Text → Text → Text → Option Text

abbrev pub failure : String → Error
failure problem = dependency_failure "FCM decryption" problem

abbrev pub header_prefix_len : ℕ
header_prefix_len = 21

abbrev pub public_key_len : ℕ
public_key_len = 65

abbrev pub auth_tag_len : ℕ
auth_tag_len = 16

pub record Keys : Type 0 where
  pub private_key : Text
  pub public_key : Text
  pub auth_secret : Text

pub record Header : Type 0 where
  pub salt : Text
  pub record_size : ℕ
  pub sender_public_key : Text
  pub ciphertext : Text

-- `u32::from_be_bytes`.
abbrev pub from_be_bytes : ℕ → Text → ℕ
from_be_bytes n [] = n
from_be_bytes n (b ∷ bs) = from_be_bytes (n * 256 + b) bs

abbrev pub first_or_zero : Text → ℕ
first_or_zero [] = 0
first_or_zero (b ∷ bs) = b

unfoldable pub check_key_lengths : Keys → Result (Unit {0})
check_key_lengths k =
    refuse_if
      (not (length k.private_key == 32)
        || not (length k.public_key == public_key_len)
        || not (length k.auth_secret == 16))
      (failure "session contains invalid key material")

abbrev pub split_body : Text → Header
split_body encrypted = record {
  salt = take 16 encrypted;
  record_size = from_be_bytes 0 (take 4 (drop 16 encrypted));
  sender_public_key = take public_key_len (drop header_prefix_len encrypted);
  ciphertext = drop public_key_len (drop header_prefix_len encrypted);
}

abbrev pub key_id_len : Text → ℕ
key_id_len encrypted = first_or_zero (drop 20 encrypted)

-- The checks on the length of the body, that of its key, and its parts.
unfoldable pub check_header : ℕ → ℕ → Header → Result Header
check_header size key_len h = do
  refuse_if (ltb size header_prefix_len) (failure "encrypted payload header is truncated")
  refuse_if (ltb h.record_size 18 || not (key_len == public_key_len))
      (failure "encrypted payload header is invalid")
  refuse_if (ltb size (header_prefix_len + public_key_len))
      (failure "encrypted payload key is truncated")
  refuse_if (leb (length h.ciphertext) auth_tag_len || leb h.record_size (length h.ciphertext))
      (failure "encrypted payload record size is invalid")
  ok h

unfoldable pub read_header : Text → Result Header
unfolding check_header
read_header encrypted =
    check_header (length encrypted) (key_id_len encrypted) (split_body encrypted)

abbrev pub key_info : Text → Text → Text
key_info public_key sender_public_key =
    bytes "WebPush: info" ++ (0 ∷ public_key ++ sender_public_key)

-- The key of the content and the nonce, from the shared secret.
unfoldable pub derive : Primitives → Text → Text → Text → Text → Result (Text × Text)
derive p shared_secret auth_secret info salt = do
  input_key_material ←
      ok_or (failure "key derivation failed") (p.hkdf_expand auth_secret shared_secret info 32)
  content_key ←
      ok_or (failure "content key derivation failed")
        (p.hkdf_expand salt input_key_material (bytes "Content-Encoding: aes128gcm" ++ 0 ∷ []) 16)
  nonce ←
      ok_or (failure "nonce derivation failed")
        (p.hkdf_expand salt input_key_material (bytes "Content-Encoding: nonce" ++ 0 ∷ []) 12)
  ok (content_key, nonce)

-- The key pair of the session has to be one.
unfoldable pub agree : Primitives → Keys → Text → Result Text
agree p k sender_public_key = do
  refuse_if (not (p.is_public_key sender_public_key)) (failure "sender public key is invalid")
  receiver_public_key ← ok_or (failure "private key is invalid") (p.public_of k.private_key)
  refuse_if (not (receiver_public_key =? k.public_key))
      (failure "session public and private keys do not match")
  ok (p.diffie_hellman k.private_key sender_public_key)

abbrev pub is_zero : ℕ → Bool
is_zero b = b == 0

-- The plaintext from its end, with the zeros gone.
abbrev pub before_delimiter : Text → Result Text
before_delimiter [] = err (failure "payload delimiter is missing")
before_delimiter (b ∷ bs) =
    if b == 2 then ok (reverse bs) else err (failure "payload delimiter is invalid")

unfoldable pub remove_padding : Text → Result Text
unfolding trim_start_matches
remove_padding plaintext = before_delimiter (trim_start_matches is_zero (reverse plaintext))

unfoldable pub open_record : Primitives → Keys → Header → Result Text
unfolding agree derive remove_padding
open_record p k h = do
  shared_secret ← agree p k h.sender_public_key
  (content_key, nonce) ←
      derive p shared_secret k.auth_secret (key_info k.public_key h.sender_public_key) h.salt
  plaintext ←
      ok_or (failure "payload authentication failed") (p.gcm_decrypt content_key nonce h.ciphertext)
  remove_padding plaintext

unfoldable pub decrypt_web_push : Primitives → Keys → Text → Result Text
unfolding check_key_lengths read_header open_record
decrypt_web_push p k encrypted = do
  check_key_lengths k
  header ← read_header encrypted
  open_record p k header
