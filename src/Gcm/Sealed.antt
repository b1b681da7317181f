-- ===== src/Gcm/Sealed.antt =====
-- crates/listener/src/gcm.rs: what a sender seals for a session is what the session decrypts.
use pushcompat.Prelude.{
  ℕ, ◌+◌, ◌<◌, ◌≤◌, ◌≡◌, refl, ap, ◌∙◌, [], ◌∷◌, ◌++◌, take, take-all, bytes, some, true, Text,
  =?_refl, length, length-append, arith,
}
use mathlib.Core.List.{append_assoc}
use pushcompat.Gcm.Result.{ok}
use pushcompat.Gcm.WebPush.{
  Primitives, Keys, Header, check_key_lengths, key_info, derive, agree, open_record,
  decrypt_web_push,
}
use pushcompat.Gcm.RoundTrip.{encode_body, Framed, read-encode_body, zeros, pad, remove_padding-pad}

-- The functions of a sender: HMAC-SHA-256 of a key and a message, and AEAD_AES_128_GCM.
pub record Sealing : Type 0 where
  pub hmac : Text → Text → Text
  pub encrypt : Text → Text → Text → Text

-- A public key is 65 bytes and valid, the shared secret is the same on both sides, decryption undoes
-- encryption, which adds a tag of 16 bytes, and HKDF is that of RFC 5869: as long as no more than a
-- digest is wanted, it is one HMAC under the key that another HMAC has extracted.
pub record PrimitivesLaws (p : Primitives) (f : Sealing) : Type 0 where
  pub is_public_key-public_of :
      (a pa : Text) → p.public_of a ≡ some pa → (p.is_public_key pa ≡ true) × (length pa ≡ 65)
  pub diffie_hellman_comm :
      (a b pa pb : Text)
      → p.public_of a ≡ some pa
      → p.public_of b ≡ some pb
      → p.diffie_hellman a pb ≡ p.diffie_hellman b pa
  pub gcm_decrypt-encrypt :
      (key nonce m : Text) → p.gcm_decrypt key nonce (f.encrypt key nonce m) ≡ some m
  pub length-encrypt : (key nonce m : Text) → length (f.encrypt key nonce m) ≡ length m + 16
  pub hkdf_expand-hmac :
      (salt key info : Text) (n : ℕ)
      → n ≤ 32
      → p.hkdf_expand salt key info n ≡ some (take n (f.hmac (f.hmac salt key) (info ++ 1 ∷ [])))
  pub length-hmac : (key m : Text) → length (f.hmac key m) ≡ 32

-- A sender's parameters: its key pair, a salt, the record size, and how much it pads.
pub record Sender : Type 0 where
  pub private_key : Text
  pub public_key : Text
  pub salt : Text
  pub record_size : ℕ
  pub padding : ℕ

abbrev pub sealed : Sealing → Sender → Text → Text × Text → Header
sealed f s message (content_key, nonce) = record {
  salt = s.salt;
  record_size = s.record_size;
  sender_public_key = s.public_key;
  ciphertext = f.encrypt content_key nonce (pad s.padding message);
}

-- RFC 8291, section 3.4: the input keying material from the shared secret, for the public key and
-- the authentication secret of the user agent. The text is "WebPush: info".
abbrev pub keying_material : Sealing → Sender → Text → Text → Text → Text
keying_material f s ecdh_secret ua_public auth_secret = f.hmac (f.hmac auth_secret ecdh_secret) (
    (87 ∷ 101 ∷ 98 ∷ 80 ∷ 117 ∷ 115 ∷ 104 ∷ 58 ∷ 32 ∷ 105 ∷ 110 ∷ 102 ∷ 111 ∷ [])
    ++ (0 ∷ [])
    ++ ua_public
    ++ s.public_key
    ++ (1 ∷ []))

-- "Content-Encoding: ".
abbrev content_encoding : Text
content_encoding =
    67 ∷ 111 ∷ 110 ∷ 116 ∷ 101 ∷ 110 ∷ 116 ∷ 45 ∷ 69 ∷ 110 ∷ 99 ∷ 111 ∷ 100 ∷ 105 ∷ 110 ∷ 103 ∷ 58
    ∷ 32 ∷ []

-- RFC 8188, sections 2.2 and 2.3: the key of the content, and the nonce of its first record. The
-- texts are "aes128gcm" and "nonce".
abbrev pub content_key : Sealing → Sender → Text → Text
content_key f s ikm = take 16 (
    f.hmac (f.hmac s.salt ikm)
      (content_encoding ++ (97 ∷ 101 ∷ 115 ∷ 49 ∷ 50 ∷ 56 ∷ 103 ∷ 99 ∷ 109 ∷ 0 ∷ 1 ∷ [])))

abbrev pub content_nonce : Sealing → Sender → Text → Text
content_nonce f s ikm =
    take 12
      (f.hmac (f.hmac s.salt ikm) (content_encoding ++ (110 ∷ 111 ∷ 110 ∷ 99 ∷ 101 ∷ 0 ∷ 1 ∷ [])))

abbrev pub sender_keys : Primitives → Sealing → Sender → Text → Text → Text × Text
sender_keys p f s ua_public auth_secret =
    let ikm =
      keying_material f s (p.diffie_hellman s.private_key ua_public) ua_public auth_secret in
    (content_key f s ikm, content_nonce f s ikm)

-- What the sender posts.
abbrev pub web_push : Primitives → Sealing → Sender → Text → Text → Text → Text
web_push p f s ua_public auth_secret message =
    encode_body (sealed f s message (sender_keys p f s ua_public auth_secret))

-- Keys as `generate_keys` makes them.
pub record Session (p : Primitives) (k : Keys) : Type 0 where
  pub private_len : length k.private_key ≡ 32
  pub auth_len : length k.auth_secret ≡ 16
  pub pair : p.public_of k.private_key ≡ some k.public_key

pub record Sends (p : Primitives) (s : Sender) (message : Text) : Type 0 where
  pub pair : p.public_of s.private_key ≡ some s.public_key
  pub salt_len : length s.salt ≡ 16
  pub fits : length (pad s.padding message) + 16 < s.record_size
  pub size : s.record_size < 4294967296

info_bytes :
    (ua_public as_public : Text)
    → key_info ua_public as_public ++ (1 ∷ [])
      ≡ (87 ∷ 101 ∷ 98 ∷ 80 ∷ 117 ∷ 115 ∷ 104 ∷ 58 ∷ 32 ∷ 105 ∷ 110 ∷ 102 ∷ 111 ∷ [])
        ++ (0 ∷ [])
        ++ ua_public
        ++ as_public
        ++ (1 ∷ [])
info_bytes ua_public as_public = simp append_assoc

module _ (p : Primitives) (f : Sealing) (laws : PrimitivesLaws p f) where
  sealed-Framed :
      (s : Sender) (message : Text) (ck : Text × Text)
      → Sends p s message
      → Framed (sealed f s message ck)
  sealed-Framed s message (key, nonce) sends =
      let size = laws.length-encrypt key nonce (pad s.padding message) in
      let padded = length-append message (2 ∷ zeros s.padding) in
      record {
        salt = sends.salt_len;
        key = (laws.is_public_key-public_of s.private_key s.public_key sends.pair).1;
        least = omega (arith, sends.fits, padded);
        most = sends.size;
        tagged = omega (arith, size, padded);
        one_record = omega (arith, size, sends.fits);
      }

  checked_lengths : (k : Keys) → Session p k → check_key_lengths k ≡ ok tt
  unfolding check_key_lengths
  checked_lengths k session = ground (
    arith,
    session.private_len,
    session.auth_len,
    laws.is_public_key-public_of k.private_key k.public_key session.pair,
  )

  agreed :
      (k : Keys) (s : Sender) (message : Text)
      → Session p k
      → Sends p s message
      → agree p k s.public_key ≡ ok (p.diffie_hellman s.private_key k.public_key)
  unfolding agree
  agreed k s message session sends =
      rw
        (
          (laws.is_public_key-public_of s.private_key s.public_key sends.pair).0,
          session.pair,
          =?_refl k.public_key,
        )
        (ap ok (
          laws.diffie_hellman_comm k.private_key s.private_key k.public_key s.public_key
            session.pair sends.pair))

  -- The material is a whole digest.
  material :
      (s : Sender) (secret ua_public auth_secret : Text)
      → p.hkdf_expand auth_secret secret (key_info ua_public s.public_key) 32
        ≡ some (keying_material f s secret ua_public auth_secret)
  material s secret ua_public auth_secret =
      laws.hkdf_expand-hmac auth_secret secret (key_info ua_public s.public_key) 32 (omega arith)
      ∙ ap some (
          take-all 32 _ (omega (arith, laws.length-hmac (f.hmac auth_secret secret) _))
          ∙ ap (f.hmac (f.hmac auth_secret secret)) (info_bytes ua_public s.public_key))

  -- The two keys of the code are those of the sender.
  derived :
      (s : Sender) (secret ua_public auth_secret : Text)
      → let ikm = keying_material f s secret ua_public auth_secret in
        derive p secret auth_secret (key_info ua_public s.public_key) s.salt
        ≡ ok (content_key f s ikm, content_nonce f s ikm)
  unfolding derive
  derived s secret ua_public auth_secret =
      let ikm = keying_material f s secret ua_public auth_secret in
      rw
        (
          material s secret ua_public auth_secret,
          laws.hkdf_expand-hmac s.salt ikm (bytes "Content-Encoding: aes128gcm" ++ 0 ∷ []) 16
              (omega arith),
          laws.hkdf_expand-hmac s.salt ikm (bytes "Content-Encoding: nonce" ++ 0 ∷ []) 12
              (omega arith),
        )
        refl

  opened :
      (k : Keys) (s : Sender) (message : Text)
      → Session p k
      → Sends p s message
      → open_record p k (sealed f s message (sender_keys p f s k.public_key k.auth_secret))
        ≡ ok message
  unfolding open_record
  opened k s message session sends =
      let secret = p.diffie_hellman s.private_key k.public_key in
      let ikm = keying_material f s secret k.public_key k.auth_secret in
      rw (agreed k s message session sends) (
        rw (derived s secret k.public_key k.auth_secret) (
          rw
            (laws.gcm_decrypt-encrypt (content_key f s ikm) (content_nonce f s ikm)
              (pad s.padding message))
            (remove_padding-pad s.padding message)))

  -- A body that a sender seals by RFC 8291 for the public key and the secret of a session, in one
  -- record and with any padding, is decrypted to the message, where the session's keys are a pair and
  -- have their lengths, and the primitives obey their laws.
  pub decrypt_web_push-web_push :
      (k : Keys) (s : Sender) (message : Text)
      → Session p k
      → Sends p s message
      → decrypt_web_push p k (web_push p f s k.public_key k.auth_secret message) ≡ ok message
  unfolding decrypt_web_push
  decrypt_web_push-web_push k s message session sends =
      let keys = sender_keys p f s k.public_key k.auth_secret in
      rw
        (
          checked_lengths k session,
          read-encode_body (sealed f s message keys) (sealed-Framed s message keys sends),
        )
        (opened k s message session sends)
