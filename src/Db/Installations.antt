-- ===== src/Db/Installations.antt =====
-- crates/bridge/src/db.rs: the table `installations`.

use pushcompat.Prelude.{
  ℕ, [], ◌∷◌, ◌++◌, Option, none, some, Bool, true, false, Text, ◌=?◌, find, update, if◌then◌else◌,
}
use mathlib.Core.Option
use pushcompat.Db.Tables.{Tables, Installation}

abbrev pub fresh : Text → Text → Text → ℕ → Installation
fresh install_id secret_hash install_secret now = record {
  install_id = install_id;
  secret_hash = secret_hash;
  install_secret = some install_secret;
  updated_at = now;
}

abbrev pub with_secret : Text → ℕ → Installation → Installation
with_secret secret now row = record row { install_secret = some secret; updated_at = now }

abbrev pub touched : ℕ → Installation → Installation
touched now row = record row { updated_at = now }

unfoldable pub has_id : Text → Installation → Bool
has_id install_id row = row.install_id =? install_id

-- The first claim of an id stores its hash; a later one succeeds only with the same hash, and
-- then stores the secret itself.
unfoldable pub claim_installation : Text → Text → Text → Tables → Bool × Tables
unfolding has_id
claim_installation install_id secret_hash install_secret t =
    elim (find (has_id install_id) t.installations) [
      | none ↦ (
        true,
        record t {
          installations = t.installations ++ fresh install_id secret_hash install_secret t.now ∷ [];
        },
      )
      | some row ↦
          if row.secret_hash =? secret_hash
          then (
            true,
            record t {
              installations =
                  update (has_id install_id) (with_secret install_secret t.now) t.installations;
            },
          )
          else (false, t)
    ]

-- The first statement of `verify_installation`.
unfoldable pub stored_hash : Text → Tables → Option Text
unfolding has_id
stored_hash install_id t =
    Option.map (λ row. row.secret_hash) (find (has_id install_id) t.installations)

-- Its second statement, which runs when the secret matches the hash.
unfoldable pub refresh_secret : Text → Text → Tables → Tables
unfolding has_id
refresh_secret install_id secret t = record t {
  installations = update (has_id install_id) (with_secret secret t.now) t.installations;
}

-- A row without a secret counts as no row.
unfoldable pub installation_secret : Text → Tables → Option Text
unfolding has_id
installation_secret install_id t = elim (find (has_id install_id) t.installations) [
  | none ↦ none
  | some row ↦ row.install_secret
]

unfoldable pub touch_installation : Text → Tables → Tables
unfolding has_id
touch_installation install_id t = record t {
  installations = update (has_id install_id) (touched t.now) t.installations;
}
