-- ===== src/Crypto.antt =====
-- The crates for digests, encodings and ciphers, as parameters: the functions that the bridge
-- calls, and the laws that it relies on. Keys, digests and ciphertexts are byte strings.
use pushcompat.Prelude.{◌≡◌, ◌↔◌, Bool, true, Option, some, Text, [], length}

pub record Crypto : Type 0 where
  -- sha2
  pub sha256 : Text → Text
  -- data_encoding: HEXLOWER and BASE64
  pub hex_encode : Text → Text
  pub hex_decode : Text → Option Text
  pub base64_encode : Text → Text
  pub base64_decode : Text → Option Text
  -- subtle: `ct_eq` of two slices
  pub ct_eq : Text → Text → Bool
  -- hmac: key and message
  pub hmac_sha256 : Text → Text → Text
  -- hkdf: secret and context, to 32 bytes
  pub hkdf_expand : Text → Text → Option Text
  -- aes_gcm: key, nonce, associated data, message
  pub gcm_encrypt : Text → Text → Text → Text → Option Text

-- Decoding undoes encoding, and `ct_eq` is equality.
pub record CryptoLaws (c : Crypto) : Type 0 where
  pub hex_decode-hex_encode : (b : Text) → c.hex_decode (c.hex_encode b) ≡ some b
  pub base64_decode-base64_encode : (b : Text) → c.base64_decode (c.base64_encode b) ≡ some b
  pub ct_eq_iff : (a b : Text) → (c.ct_eq a b ≡ true) ↔ (a ≡ b)

-- A digest has 32 bytes, the empty text decodes to none, and `ct_eq` is equality.
pub record DigestLaws (c : Crypto) : Type 0 where
  pub length-sha256 : (b : Text) → length (c.sha256 b) ≡ 32
  pub hex_decode-empty : c.hex_decode [] ≡ some []
  pub ct_eq_iff : (a b : Text) → (c.ct_eq a b ≡ true) ↔ (a ≡ b)
