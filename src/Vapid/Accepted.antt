-- ===== src/Vapid/Accepted.antt =====
-- crates/bridge/src/vapid.rs: what an accepted header proves.

use pushcompat.Prelude.{
  ℕ, ◌+◌, ◌≤◌, ◌≡◌, refl, ap, ◌∷◌, ◌++◌, Option, none, some, true, Text, bytes, =?_iff, ◌=??◌,
  split, split_once, eq_ignore_ascii_case, Bool-cases, Option-cases, inl, inr, arith,
}
use pushcompat.Vapid.{
  max_exp_ahead_secs, clock_skew_secs, accepted, Claims, Jwt, decode_public_key, decode_key_param,
  read_parts, saturating_add, trim_slashes, check_claims, check_signature, decode_json, check_parts,
  check_token, check_key, check_zip, validate,
}

-- Claims for this origin that have not expired and do not reach too far ahead.
pub record Current (claims : Claims) (public_origin : Text) (now : ℕ) : Type 0 where
  pub exp : ℕ
  pub aud : Text
  pub has_exp : claims.exp ≡ some exp
  pub not_expired : now ≤ exp + clock_skew_secs
  pub not_far : exp ≤ now + max_exp_ahead_secs + clock_skew_secs
  pub has_aud : claims.aud ≡ some aud
  pub audience : trim_slashes aud ≡ trim_slashes public_origin

-- A token whose payload holds such claims, signed for by the key.
pub record Vouched (j : Jwt) (key token public_origin : Text) (now : ℕ) : Type 0 where
  pub header : Text
  pub payload : Text
  pub signature_b64 : Text
  pub signature : Text
  pub claims : Claims
  pub parts :
      (rest : Text) × (split_once b'.' token ≡ some (header, rest))
      × (split_once b'.' rest ≡ some (payload, signature_b64))
  pub decoded : j.base64url_decode signature_b64 ≡ some signature
  pub verified : j.verify key (header ++ (b'.' ∷ payload)) signature ≡ true
  pub claimed : decode_json j payload ≡ some claims
  pub current : Current claims public_origin now

saturating_add-le : (a b : ℕ) → saturating_add a b ≤ a + b
unfolding saturating_add
saturating_add-le a b = ground arith

check_claims-Current :
    (claims : Claims) (origin : Text) (now : ℕ)
    → check_claims claims origin now ≡ accepted
    → Current claims origin now
unfolding check_claims
check_claims-Current claims origin now e = elim (Option-cases claims.exp) [
  | inl n ↦ ground (arith, e, n)
  | inr (exp, n) ↦ elim (Option-cases claims.aud) [
    | inl m ↦ ground (arith, e, n, m)
    | inr (aud, m) ↦ record {
      exp = exp;
      aud = aud;
      has_exp = n;
      not_expired = ground (arith, e, n, m, saturating_add-le exp clock_skew_secs);
      not_far = ground (
        arith,
        e,
        n,
        m,
        saturating_add-le now max_exp_ahead_secs,
        saturating_add-le (saturating_add now max_exp_ahead_secs) clock_skew_secs,
      );
      has_aud = m;
      audience = ground (arith, e, n, m, =?_iff (trim_slashes aud) (trim_slashes origin));
    }
  ]
]

check_signature-verified :
    (j : Jwt) (key header payload signature : Text) (claims : Claims) (origin : Text) (now : ℕ)
    → check_signature j key header payload signature claims origin now ≡ accepted
    → (j.verify key (header ++ (b'.' ∷ payload)) signature ≡ true) × Current claims origin now
unfolding check_signature
check_signature-verified j key header payload signature claims origin now e =
    (ground (arith, e), check_claims-Current claims origin now (ground (arith, e)))

check_parts-Vouched :
    (j : Jwt) (key token header rest payload signature_b64 origin : Text) (now : ℕ)
    → split_once b'.' token ≡ some (header, rest)
    → split_once b'.' rest ≡ some (payload, signature_b64)
    → check_parts j key header payload signature_b64 origin now ≡ accepted
    → Vouched j key token origin now
unfolding check_parts
check_parts-Vouched j key token header rest payload signature_b64 origin now p q e =
    elim (Option-cases (decode_json j header)) [
      | inl h ↦ ground (arith, e, h)
      | inr (jwt_header, h) ↦ elim (Option-cases (decode_json j payload)) [
        | inl k ↦ ground (arith, e, h, k)
        | inr (claims, k) ↦ elim (Option-cases (j.base64url_decode signature_b64)) [
          | inl s ↦ ground (arith, e, h, k, s)
          | inr (signature, s) ↦
              let (v, current) =
                check_signature-verified j key header payload signature claims origin now
                  (ground (arith, e, h, k, s)) in
              record {
                header = header;
                payload = payload;
                signature_b64 = signature_b64;
                signature = signature;
                claims = claims;
                parts = (rest, p, q);
                decoded = s;
                verified = v;
                claimed = k;
                current = current;
              }
        ]
      ]
    ]

check_token-Vouched :
    (j : Jwt) (key token origin : Text) (now : ℕ)
    → check_token j key token origin now ≡ accepted
    → Vouched j key token origin now
unfolding check_token
check_token-Vouched j key token origin now e = elim (Option-cases (split_once b'.' token)) [
  | inl p ↦ ground (arith, e, p)
  | inr ((header, rest), p) ↦ elim (Option-cases (split_once b'.' rest)) [
    | inl q ↦ ground (arith, e, p, q)
    | inr ((payload, signature_b64), q) ↦
        check_parts-Vouched j key token header rest payload signature_b64 origin now p q
          (ground (arith, e, p, q))
  ]
]

-- The key that is stored for the connector, in both spellings, and what it vouches for.
pub record Authentic (j : Jwt) (token key stored origin : Text) (now : ℕ) : Type 0 where
  pub key_bytes : Text
  pub is_stored : decode_public_key j stored ≡ some key_bytes
  pub is_sent : decode_key_param j key ≡ some key_bytes
  pub vouched : Vouched j key_bytes token origin now

same_key : (a : Option Text) (b : Text) → (a =?? some b) ≡ true → a ≡ some b
same_key none b e = ground arith
same_key (some a) b e = ap some ((=?_iff a b).0 e)

check_key-Authentic :
    (j : Jwt) (token key stored origin : Text) (now : ℕ)
    → check_key j token key stored origin now ≡ accepted
    → Authentic j token key stored origin now
unfolding check_key
check_key-Authentic j token key stored origin now e =
    elim (Option-cases (decode_public_key j stored)) [
      | inl d ↦ ground (arith, e, d)
      | inr (bytes, d) ↦ elim (Bool-cases (decode_key_param j key =?? some bytes)) [
        | inl m ↦ record {
          key_bytes = bytes;
          is_stored = d;
          is_sent = same_key (decode_key_param j key) bytes m;
          vouched = check_token-Vouched j bytes token origin now (ground (arith, e, d, m));
        }
        | inr m ↦ ground (arith, e, d, m)
      ]
    ]

check_zip-Authentic :
    (j : Jwt) (found : Option Text × Option Text) (stored origin : Text) (now : ℕ)
    → check_zip j found stored origin now ≡ accepted
    → (token key : Text) × (found ≡ (some token, some key))
      × Authentic j token key stored origin now
check_zip-Authentic j (some token, some key) stored origin now e =
    (token, key, refl, check_key-Authentic j token key stored origin now e)
check_zip-Authentic j (some token, none) stored origin now e = ground arith
check_zip-Authentic j (none, some key) stored origin now e = ground arith
check_zip-Authentic j (none, none) stored origin now e = ground arith

-- A sender's header is accepted only if it names a token and a key, the key is the stored one, its
-- signature of the token's first two parts verifies, and the claims signed for are for this
-- origin, no more than 300 seconds past their expiry, and expire at most 86,700 seconds from now.
pub validate-Authentic :
    (j : Jwt) (header stored origin : Text) (now : ℕ)
    → validate j (some header) stored origin now ≡ accepted
    → (scheme rest token key : Text) × (split_once 32 header ≡ some (scheme, rest))
      × (eq_ignore_ascii_case scheme (bytes "vapid") ≡ true)
      × (read_parts (split b',' rest) (none, none) ≡ (some token, some key))
      × Authentic j token key stored origin now
unfolding validate
validate-Authentic j header stored origin now e = elim (Option-cases (split_once 32 header)) [
  | inl p ↦ ground (arith, e, p)
  | inr ((scheme, rest), p) ↦ elim (Bool-cases (eq_ignore_ascii_case scheme (bytes "vapid"))) [
    | inl m ↦
        let (token, key, found, authentic) =
          check_zip-Authentic j (read_parts (split b',' rest) (none, none)) stored origin now
            (ground (arith, e, p, m)) in
        (scheme, rest, token, key, p, m, found, authentic)
    | inr m ↦ ground (arith, e, p, m)
  ]
]
