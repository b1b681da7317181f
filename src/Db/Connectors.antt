-- ===== src/Db/Connectors.antt =====
-- crates/bridge/src/db.rs: the table `unified_push_registrations`, whose rows map a web push
-- endpoint to the connector of an app.
use pushcompat.Prelude.{
  ℕ, ◌+◌, List, [], ◌∷◌, ◌++◌, Option, none, some, Bool, true, false, not, ◌&&◌, Text, ◌=?◌, ◌=??◌,
  any, find, update, delete, select, length, map, if◌then◌else◌,
}
use pushcompat.Db.Tables.{Tables, UnifiedPushRegistration, OutboxRow}

-- The key (install_id, connector_token).
unfoldable pub has_connector : Text → Text → UnifiedPushRegistration → Bool
has_connector install_id connector_token row =
    row.install_id =? install_id && row.connector_token =? connector_token

unfoldable pub has_endpoint : Text → UnifiedPushRegistration → Bool
has_endpoint endpoint_token row = row.endpoint_token =? endpoint_token

abbrev pub fresh : Text → Text → Text → Text → Option Text → ℕ → UnifiedPushRegistration
fresh install_id app_id connector_token endpoint_token vapid_pubkey now = record {
  install_id = install_id;
  app_id = app_id;
  connector_token = connector_token;
  endpoint_token = endpoint_token;
  vapid_pubkey = vapid_pubkey;
  updated_at = now;
}

abbrev pub with_key : Option Text → ℕ → UnifiedPushRegistration → UnifiedPushRegistration
with_key vapid_pubkey now row = record row { updated_at = now; vapid_pubkey = vapid_pubkey }

-- What the transaction of `register_unified_push` gives back: an endpoint, `taken` where another
-- app owns the connector, or a violation of UNIQUE on `endpoint_token`, which rolls it back.
pub data Registered : Type 0 where
  endpoint : Text → Registered
  taken constraint_violation : Registered

unfoldable pub register_unified_push :
    Text → Text → Text → Text → Option Text → Tables → Registered × Tables
unfolding has_connector has_endpoint
register_unified_push install_id app_id connector_token endpoint_token vapid_pubkey t =
    elim (find (has_connector install_id connector_token) rows) [
      | none ↦ if any (has_endpoint endpoint_token) rows then (constraint_violation, t) else (
        endpoint endpoint_token,
        record t {
          unified_push_registrations =
              rows
              ++ fresh install_id app_id connector_token endpoint_token vapid_pubkey t.now ∷ [];
        },
      )
      | some row ↦
          if row.app_id =? app_id
          then (
            endpoint row.endpoint_token,
            record t {
              unified_push_registrations =
                  update (has_connector install_id connector_token) (with_key vapid_pubkey t.now)
                    rows;
            },
          )
          else (taken, t)
    ]
  where
    rows : List UnifiedPushRegistration
    rows = t.unified_push_registrations

-- The messages of one connector, of any app.
unfoldable pub for_connector : Text → Text → OutboxRow → Bool
for_connector install_id connector_token row =
    row.install_id =? install_id && row.connector_token =?? some connector_token

unfoldable pub owned_by : Text → Text → Text → UnifiedPushRegistration → Bool
unfolding has_connector
owned_by install_id app_id connector_token row =
    has_connector install_id connector_token row && row.app_id =? app_id

unfoldable pub queued_for : Text → Text → Text → OutboxRow → Bool
unfolding for_connector
queued_for install_id app_id connector_token row =
    for_connector install_id connector_token row && row.app_id =? app_id

-- The registration goes, and with it the app's messages for the connector.
unfoldable pub unregister_unified_push : Text → Text → Text → Tables → Bool × Tables
unfolding owned_by queued_for
unregister_unified_push install_id app_id connector_token t =
    if any (owned_by install_id app_id connector_token) t.unified_push_registrations
    then (
      true,
      record t {
        unified_push_registrations =
            delete (owned_by install_id app_id connector_token) t.unified_push_registrations;
        outbox = delete (queued_for install_id app_id connector_token) t.outbox;
      },
    )
    else (false, t)

-- One round of the loop over the stale connectors.
unfoldable pub delete_connector : Text → Text → Tables → Tables
unfolding has_connector for_connector
delete_connector install_id connector_token t = record t {
  outbox = delete (for_connector install_id connector_token) t.outbox;
  unified_push_registrations =
      delete (has_connector install_id connector_token) t.unified_push_registrations;
}

unfoldable pub delete_connectors : Text → List Text → ℕ → Tables → ℕ × Tables
unfolding delete_connector
delete_connectors install_id [] deleted t = (deleted, t)
delete_connectors install_id (token ∷ tokens) deleted t =
    delete_connectors install_id tokens
      (deleted + length (select (has_connector install_id token) t.unified_push_registrations))
      (delete_connector install_id token t)

unfoldable pub of_install : Text → UnifiedPushRegistration → Bool
of_install install_id row = row.install_id =? install_id

-- The connectors of the installation that are not retained.
unfoldable pub stale_tokens : Text → List Text → Tables → List Text
unfolding of_install
stale_tokens install_id retained_tokens t =
    select (λ token. not (any (λ retained. retained =? token) retained_tokens))
      (map (λ row. row.connector_token)
        (select (of_install install_id) t.unified_push_registrations))

unfoldable pub delete_stale_unified_push_registrations : Text → List Text → Tables → ℕ × Tables
unfolding stale_tokens delete_connectors
delete_stale_unified_push_registrations install_id retained_tokens t =
    delete_connectors install_id (stale_tokens install_id retained_tokens t) 0 t

unfoldable pub get_unified_push_endpoint : Text → Tables → Option UnifiedPushRegistration
unfolding has_endpoint
get_unified_push_endpoint endpoint_token t =
    find (has_endpoint endpoint_token) t.unified_push_registrations
