-- ===== src/Bridge/Secrets.antt =====
-- crates/bridge/src/auth.rs: a stored hash is matched by the secret it was made of, and by every
-- text with the same digest, and by nothing else.
use pushcompat.Prelude.{◌≡◌, ◌↔◌, true, Text}
use pushcompat.Crypto.{Crypto, CryptoLaws}
use pushcompat.Bridge.Auth.{hash_secret, verify_secret}

-- A secret is accepted against the hash of another exactly if the two have one digest.
pub verify_secret-hash_secret :
    (c : Crypto) (laws : CryptoLaws c) (given stored : Text)
    → (verify_secret c given (hash_secret c stored) ≡ true) ↔ (c.sha256 given ≡ c.sha256 stored)
unfolding verify_secret hash_secret
verify_secret-hash_secret c laws given stored =
    rw (laws.hex_decode-hex_encode (c.sha256 stored), verify_secret, hash_secret)
      (laws.ct_eq_iff (c.sha256 given) (c.sha256 stored))
