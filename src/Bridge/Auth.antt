-- ===== src/Bridge/Auth.antt =====
-- crates/bridge/src/auth.rs: who may register and unregister.
use pushcompat.Prelude.{
  ℕ, [], Option, none, some, Bool, true, false, not, ◌||◌, Text, bytes, length, ltb, if◌then◌else◌,
  split_once, eq_ignore_ascii_case, trim,
}
use pushcompat.Crypto.{Crypto}
use pushcompat.Types.InstallId
use pushcompat.Db.Installations.{claim_installation, stored_hash, refresh_secret}
use pushcompat.Bridge.State.{
  Handler, bad_request, unauthorized, call, query, execute, db_call, refuse, respond, ◌>>=◌, ◌>>◌,
}

abbrev pub min_secret_len : ℕ
min_secret_len = 32

abbrev pub max_secret_len : ℕ
max_secret_len = 128

-- `authorization` is the header, if it is there and visible ASCII.
unfoldable pub bearer_secret : Option Text → Option Text
bearer_secret none = none
bearer_secret (some value) = elim (split_once 32 value) [
  | none ↦ none
  | some (scheme, rest) ↦
      if not (eq_ignore_ascii_case scheme (bytes "bearer"))
      then none
      else if ltb (length (trim rest)) min_secret_len || ltb max_secret_len (length (trim rest))
      then none
      else some (trim rest)
]

pub record RegisterIdentity : Type 0 where
  pub install_id : Text
  pub secret_hash : Text

abbrev pub credentials_required : Text
credentials_required = bytes "install_id and secret required"

abbrev pub invalid_credentials : Text
invalid_credentials = bytes "invalid credentials"

module _ (c : Crypto) where
  unfoldable pub hash_secret : Text → Text
  hash_secret secret = c.hex_encode (c.sha256 secret)

  unfoldable pub verify_secret : Text → Text → Bool
  verify_secret secret stored = elim (c.hex_decode stored) [
    | none ↦ false
    | some digest ↦ c.ct_eq (c.sha256 secret) digest
  ]

  abbrev pub or_empty : Option Text → Text
  or_empty none = []
  or_empty (some hash) = hash

  -- `Database::verify_installation`: an id that is not there has the empty hash.
  unfoldable pub verify_installation : Text → Text → Handler Bool
  unfolding verify_secret call
  verify_installation install_id secret = do
    hash ← db_call (query (stored_hash install_id))
    (if verify_secret secret (or_empty hash)
        then (do db_call (execute (refresh_secret install_id secret)); respond true)
        else respond false)

  -- A valid id, with its secret: the claim decides.
  unfoldable pub claim_identity : Text → Text → Handler RegisterIdentity
  unfolding hash_secret call
  claim_identity install_id secret = do
    claimed ← db_call (claim_installation install_id (hash_secret secret) secret)
    (if claimed
        then respond (record { install_id = install_id; secret_hash = hash_secret secret })
        else refuse unauthorized invalid_credentials)

  unfoldable pub authorize_register : Option Text → Option Text → Handler RegisterIdentity
  unfolding claim_identity
  authorize_register (some raw_install_id) (some secret) =
      elim (InstallId.try_from raw_install_id) [
        | none ↦ refuse bad_request (bytes "invalid install_id")
        | some install_id ↦ claim_identity install_id secret
      ]
  authorize_register (some raw_install_id) none = refuse unauthorized credentials_required
  authorize_register none secret = refuse unauthorized credentials_required

  unfoldable pub verify_identity : Text → Text → Handler Text
  unfolding verify_installation
  verify_identity install_id secret = do
    verified ← verify_installation install_id secret
    (if verified then respond install_id else refuse unauthorized invalid_credentials)

  unfoldable pub authorize_unregister : Option Text → Option Text → Handler Text
  unfolding verify_identity
  authorize_unregister (some raw_install_id) (some secret) =
      elim (InstallId.try_from raw_install_id) [
        | none ↦ refuse unauthorized invalid_credentials
        | some install_id ↦ verify_identity install_id secret
      ]
  authorize_unregister (some raw_install_id) none = refuse unauthorized credentials_required
  authorize_unregister none secret = refuse unauthorized credentials_required
