-- ===== src/Bridge/Ownership.antt =====
-- crates/bridge/src/auth.rs: what an authorization has shown, and what it changes.
use pushcompat.Prelude.{
  ◌≡◌, refl, sym, [], length, arith, ◌∙◌, ap, Option, none, some, Bool, true, false, Text,
  if◌then◌else◌, bytes, Bool-cases, Option-cases, inl, inr,
}
use mathlib.Core.Option.{some-injective}
use pushcompat.Crypto.{Crypto, DigestLaws}
use pushcompat.Types.InstallId
use pushcompat.Db.Tables.{Tables}
use pushcompat.Db.Installations.{claim_installation, stored_hash, refresh_secret}
use pushcompat.Db.Owners.{claim_installation_outcome}
use pushcompat.Bridge.State.{
  AppState, Handler, Reply, reply, reject, query, execute, lift_reply, continue,
  internal_server_error, unauthorized, respond, refuse, db_call, ◌>>=◌, ◌>>◌,
}
use pushcompat.Bridge.Auth.{
  RegisterIdentity, hash_secret, verify_secret, or_empty, verify_installation, claim_identity,
  authorize_register, verify_identity, authorize_unregister, invalid_credentials,
}
use pushcompat.Bridge.Gate.{call_cases}

-- The identity's hash is that of the secret, and it is the one that is stored; a refusal changes
-- nothing in the database.
abbrev pub Authorized :
    Crypto → Option Text → Option Text → Tables → Reply RegisterIdentity × AppState → Type 0
Authorized c raw secret t (reply identity, u) =
    (given id : Text) × (secret ≡ some given)
    × (raw ≡ some id)
    × (InstallId.try_from id ≡ some identity.install_id)
    × (identity.secret_hash ≡ hash_secret c given)
    × (stored_hash identity.install_id u.tables ≡ some identity.secret_hash)
Authorized c raw secret t (reject status reason, u) = u.tables ≡ t

abbrev claimed_or_refused : Crypto → Text → Text → Bool → Handler RegisterIdentity
claimed_or_refused c i secret claimed =
    if claimed
    then respond (record { install_id = i; secret_hash = hash_secret c secret })
    else refuse unauthorized invalid_credentials

claim-Authorized :
    (c : Crypto) (raw i secret : Text) (s u : AppState)
    → InstallId.try_from raw ≡ some i
    → u.tables ≡ (claim_installation i (hash_secret c secret) secret s.tables).1
    → Authorized c (some raw) (some secret) s.tables (
        claimed_or_refused c i secret
          (claim_installation i (hash_secret c secret) secret s.tables).0
          u)
claim-Authorized c raw i secret s u p e =
    elim (claim_installation_outcome i (hash_secret c secret) secret s.tables) [
      | inl (claimed, _, stored, _) ↦
          rw claimed (secret, raw, refl, refl, p, refl, ap (stored_hash i) e ∙ stored)
      | inr (refused, _, _, same) ↦ rw refused (e ∙ same)
    ]

claim_identity-Authorized :
    (c : Crypto) (raw i secret : Text) (s : AppState)
    → InstallId.try_from raw ≡ some i
    → Authorized c (some raw) (some secret) s.tables (claim_identity c i secret s)
unfolding claim_identity
claim_identity-Authorized c raw i secret s p =
    call_cases
      (λ x. Authorized c (some raw) (some secret) s.tables (
        continue (claimed_or_refused c i secret)
          (lift_reply internal_server_error (bytes "database error") x)))
      (claim_installation i (hash_secret c secret) secret) s (λ fs. refl)
      (λ fs. claim-Authorized c raw i secret s _ p refl)

-- A registration is authorized only with a valid id and a secret whose hash is then the stored
-- one; one that is refused, also by a failing database, leaves the tables as they were.
pub authorize_register-Authorized :
    (c : Crypto) (raw secret : Option Text) (s : AppState)
    → Authorized c raw secret s.tables (authorize_register c raw secret s)
unfolding authorize_register
authorize_register-Authorized c none secret s = refl
authorize_register-Authorized c (some raw) none s = refl
authorize_register-Authorized c (some raw) (some secret) s =
    elim (Option-cases (InstallId.try_from raw)) [
      | inl e ↦ rw (e, authorize_register) refl
      | inr (i, e) ↦ rw (e, authorize_register) (claim_identity-Authorized c raw i secret s e)
    ]

-- The installation has a hash stored, and the secret's digest is what that is the encoding of; a
-- refusal changes nothing in the database.
abbrev pub Verified : Crypto → Option Text → Option Text → Tables → Reply Text × AppState → Type 0
Verified c raw secret t (reply i, u) =
    (given id hash : Text) × (secret ≡ some given)
    × (raw ≡ some id)
    × (InstallId.try_from id ≡ some i)
    × (stored_hash i t ≡ some hash)
    × (c.hex_decode hash ≡ some (c.sha256 given))
    × (u.tables ≡ refresh_secret i given t)
Verified c raw secret t (reject status reason, u) = u.tables ≡ t

module _ (c : Crypto) (laws : DigestLaws c) where
  decoded :
      (secret hash : Text) (d : Option Text)
      → c.hex_decode hash ≡ d
      → (elim d [ none ↦ false | some digest ↦ c.ct_eq (c.sha256 secret) digest ]) ≡ true
      → c.hex_decode hash ≡ some (c.sha256 secret)
  decoded secret hash none e m = cc
  decoded secret hash (some digest) e m =
      e ∙ ap some (sym ((laws.ct_eq_iff (c.sha256 secret) digest).0 m))

  -- A hash that verifies is the encoding of the secret's digest.
  verified_hash :
      (secret hash : Text)
      → verify_secret c secret hash ≡ true
      → c.hex_decode hash ≡ some (c.sha256 secret)
  unfolding verify_secret
  verified_hash secret hash m = decoded secret hash (c.hex_decode hash) refl m

  -- An id with no hash stored is compared with the empty one, which no secret verifies against.
  matched_hash :
      (secret : Text) (o : Option Text)
      → verify_secret c secret (or_empty c o) ≡ true
      → (hash : Text) × (o ≡ some hash) × (c.hex_decode hash ≡ some (c.sha256 secret))
  matched_hash secret (some hash) m = (hash, refl, verified_hash secret hash m)
  matched_hash secret none m =
      elim (not_empty (c.sha256 secret) (laws.length-sha256 secret) (
        some-injective (c.sha256 secret) []
          (sym (verified_hash secret [] m) ∙ laws.hex_decode-empty))) [ ]
    where
      not_empty : (digest : Text) → length digest ≡ 32 → digest ≡ [] → ⊥
      not_empty digest l e = omega (arith, l, ap length e)

abbrev verified_then : Text → Bool → Handler Text
verified_then i verified = if verified then respond i else refuse unauthorized invalid_credentials

abbrev refresh_then : Text → Text → Handler Text
refresh_then i secret =
    (db_call (execute (refresh_secret i secret)) >> respond true) >>= verified_then i

refresh-Verified :
    (c : Crypto) (laws : DigestLaws c) (raw i secret : Text) (s u : AppState)
    → InstallId.try_from raw ≡ some i
    → verify_secret c secret (or_empty c (stored_hash i s.tables)) ≡ true
    → u.tables ≡ s.tables
    → Verified c (some raw) (some secret) s.tables (refresh_then i secret u)
refresh-Verified c laws raw i secret s u p m e =
    call_cases
      (λ x. Verified c (some raw) (some secret) s.tables (
        continue (verified_then i) (
          continue (λ _. respond true)
            (lift_reply internal_server_error (bytes "database error") x))))
      (execute (refresh_secret i secret)) u (λ fs. e)
      (λ fs.
        let (hash, stored, digest) = matched_hash c laws secret (stored_hash i s.tables) m in
        (secret, raw, hash, refl, refl, p, stored, digest, ap (refresh_secret i secret) e))

abbrev matched_then : Crypto → Text → Text → Option Text → Handler Bool
matched_then c i secret hash =
    if verify_secret c secret (or_empty c hash)
    then (db_call (execute (refresh_secret i secret)) >> respond true)
    else respond false

matched-Verified :
    (c : Crypto) (laws : DigestLaws c) (raw i secret : Text) (s u : AppState)
    → InstallId.try_from raw ≡ some i
    → u.tables ≡ s.tables
    → Verified c
        (some raw)
        (some secret)
        s.tables
        (continue (verified_then i) (matched_then c i secret (stored_hash i s.tables) u))
matched-Verified c laws raw i secret s u p e =
    elim (Bool-cases (verify_secret c secret (or_empty c (stored_hash i s.tables)))) [
      | inl m ↦ rw m (refresh-Verified c laws raw i secret s u p m e)
      | inr m ↦ rw m e
    ]

verify_identity-Verified :
    (c : Crypto) (laws : DigestLaws c) (raw i secret : Text) (s : AppState)
    → InstallId.try_from raw ≡ some i
    → Verified c (some raw) (some secret) s.tables (verify_identity c i secret s)
unfolding verify_identity verify_installation
verify_identity-Verified c laws raw i secret s p =
    call_cases
      (λ x. Verified c (some raw) (some secret) s.tables (
        continue (verified_then i) (
          continue (matched_then c i secret)
            (lift_reply internal_server_error (bytes "database error") x))))
      (query (stored_hash i)) s (λ fs. refl)
      (λ fs. matched-Verified c laws raw i secret s (record s { faults = fs }) p refl)

-- An installation is unregistered only by a valid id that has a hash stored, and a secret whose
-- digest that hash encodes; a refusal, also by a failing database, leaves the tables as they were.
-- Digests are not empty, comparing them is equality, and the empty text decodes to no bytes.
pub authorize_unregister-Verified :
    (c : Crypto) (raw secret : Option Text) (s : AppState)
    → DigestLaws c
    → Verified c raw secret s.tables (authorize_unregister c raw secret s)
unfolding authorize_unregister
authorize_unregister-Verified c none secret s laws = refl
authorize_unregister-Verified c (some raw) none s laws = refl
authorize_unregister-Verified c (some raw) (some secret) s laws =
    elim (Option-cases (InstallId.try_from raw)) [
      | inl e ↦ rw (e, authorize_unregister) refl
      | inr (i, e) ↦ rw (e, authorize_unregister) (verify_identity-Verified c laws raw i secret s e)
    ]
