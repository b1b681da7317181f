-- ===== src/Db/Registrations.antt =====
-- crates/bridge/src/db.rs: the tables `registrations` and `fcm_sessions`.
use mathlib.Core.Option
use pushcompat.Prelude.{
  ℕ, ◌+◌, ◌*◌, List, [], ◌∷◌, ◌++◌, Option, none, some, Bool, true, false, ◌&&◌, Text, ◌=?◌, find,
  update, delete, select, length, map, ltb, if◌then◌else◌,
}
use pushcompat.Types.MessageKind.{is_fcm}
use pushcompat.Db.Tables.{Tables, Registration, FcmSession, OutboxRow, is_pair}
use pushcompat.Db.Acks.{of_app}

unfoldable pub has_key : Text → Text → Registration → Bool
has_key install_id app_id row = is_pair install_id app_id row.install_id row.app_id

unfoldable pub has_session : Text → Text → FcmSession → Bool
has_session install_id app_id row = is_pair install_id app_id row.install_id row.app_id

-- A new row, or a whole new value for the row of the same key, if the hashes agree.
unfoldable pub save_registration : Registration → Tables → Bool × Tables
unfolding has_key
save_registration reg t = elim (find same_key t.registrations) [
  | none ↦ (true, record t { registrations = t.registrations ++ stamped ∷ [] })
  | some row ↦
      if row.secret_hash =? reg.secret_hash
      then (true, record t { registrations = update same_key (λ _. stamped) t.registrations })
      else (false, t)
]
  where
    stamped : Registration
    stamped = record reg { updated_at = t.now }

    same_key : Registration → Bool
    same_key = has_key reg.install_id reg.app_id

unfoldable pub get_registration : Text → Text → Tables → Option Registration
unfolding has_key
get_registration install_id app_id t = find (has_key install_id app_id) t.registrations

-- A web push message of the same app is no FCM message, and stays.
unfoldable pub is_fcm_of : Text → Text → OutboxRow → Bool
is_fcm_of install_id app_id row =
    is_pair install_id app_id row.install_id row.app_id && is_fcm row.kind

-- Three tables and the FCM messages of the outbox.
unfoldable pub delete_registration : Text → Text → Tables → Tables
unfolding has_key has_session of_app is_fcm_of
delete_registration install_id app_id t = record t {
  registrations = delete (has_key install_id app_id) t.registrations;
  fcm_sessions = delete (has_session install_id app_id) t.fcm_sessions;
  acked_messages = delete (of_app install_id app_id) t.acked_messages;
  outbox = delete (is_fcm_of install_id app_id) t.outbox;
}

abbrev pub seconds_per_day : ℕ
seconds_per_day = 86400

-- The keys of the registrations that were last saved more than so many days ago.
unfoldable pub stale_pairs : ℕ → Tables → List (Text × Text)
stale_pairs max_age_days t =
    map (λ row. (row.install_id, row.app_id))
      (select (λ row. ltb (row.updated_at + max_age_days * seconds_per_day) t.now) t.registrations)

unfoldable pub delete_pairs : List (Text × Text) → Tables → Tables
unfolding delete_registration
delete_pairs [] t = t
delete_pairs ((install_id, app_id) ∷ pairs) t =
    delete_pairs pairs (delete_registration install_id app_id t)

unfoldable pub prune_stale : ℕ → Tables → List (Text × Text) × Tables
unfolding stale_pairs delete_pairs
prune_stale max_age_days t = let pairs = stale_pairs max_age_days t in (pairs, delete_pairs pairs t)

unfoldable pub list_registrations : Tables → List Registration
list_registrations t = t.registrations

unfoldable pub count_registrations : Tables → ℕ
count_registrations t = length t.registrations

-- INSERT OR REPLACE: the old row goes, and the new one comes last.
unfoldable pub save_fcm_session : Text → Text → Text → Tables → Tables
unfolding has_session
save_fcm_session install_id app_id registration_data t = record t {
  fcm_sessions = delete (has_session install_id app_id) t.fcm_sessions ++ fresh ∷ [];
}
  where
    fresh : FcmSession
    fresh = record {
      install_id = install_id;
      app_id = app_id;
      registration_data = registration_data;
    }

unfoldable pub get_fcm_session : Text → Text → Tables → Option Text
unfolding has_session
get_fcm_session install_id app_id t =
    Option.map (λ row. row.registration_data) (find (has_session install_id app_id) t.fcm_sessions)
