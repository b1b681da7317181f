-- ===== src/Bridge/Distributor.antt =====
-- crates/bridge/src/main.rs: the handlers of the distributor, which registers web push connectors.
-- `draw` gives the random candidates for endpoints: the hexadecimal form of 20 random bytes.
use pushcompat.Prelude.{
  ℕ, suc, List, [], ◌∷◌, ◌++◌, Option, none, some, Text, bytes, length, map, ltb, if◌then◌else◌,
}
use pushcompat.Crypto.{Crypto}
use pushcompat.Types.ConnectorToken
use pushcompat.Vapid.{Jwt, decode_public_key}
use pushcompat.Db.Connectors.{
  Registered, endpoint, taken, constraint_violation, register_unified_push, unregister_unified_push,
  delete_stale_unified_push_registrations,
}
use pushcompat.Bridge.State.{
  Handler, StatusCode, bad_request, conflict, no_content, internal_server_error, respond, refuse,
  call, db_call, ◌>>=◌, ◌>>◌,
}
use pushcompat.Bridge.Auth.{bearer_secret, authorize_register, authorize_unregister}

-- `ConnectorToken::try_from(..).map_err(..)?`.
unfoldable pub valid_connector : Text → Handler Text
valid_connector connector_token = elim (ConnectorToken.try_from connector_token) [
  | none ↦ refuse bad_request (bytes "invalid connector token")
  | some token ↦ respond token
]

unfoldable pub valid_vapid : Jwt → Option Text → Handler (Unit {0})
valid_vapid j none = respond tt
valid_vapid j (some key) = elim (decode_public_key j key) [
  | none ↦ refuse bad_request (bytes "invalid vapid key")
  | some _ ↦ respond tt
]

abbrev pub register_call : Text → Text → Text → Text → Option Text → Handler Registered
register_call install_id app_id connector candidate vapid =
    db_call (register_unified_push install_id app_id connector candidate vapid)

-- The endpoint, or `None` for a connector of another app; an error of the database otherwise.
unfoldable pub registered_endpoint : Registered → Handler (Option Text)
registered_endpoint (endpoint token) = respond (some token)
registered_endpoint taken = respond none
registered_endpoint constraint_violation = refuse internal_server_error (bytes "database error")

unfoldable pub or_conflict : Option Text → Handler Text
or_conflict (some token) = respond token
or_conflict none = refuse conflict (bytes "connector token belongs to another app")

pub record ReconcileEntry : Type 0 where
  pub app_id : Text
  pub connector_token : Text
  pub vapid : Option Text

module _ (c : Crypto) (j : Jwt) where
  unfoldable pub distributor_register :
      Option Text → Text → Text → Text → Option Text → Text → Handler Text
  unfolding valid_connector valid_vapid registered_endpoint or_conflict call
  distributor_register authorization install_id app_id connector_token vapid candidate = do
    connector ← valid_connector connector_token
    valid_vapid j vapid
    identity ← authorize_register c (some install_id) (bearer_secret authorization)
    result ← register_call identity.install_id app_id connector candidate vapid
    found ← registered_endpoint result
    or_conflict found

  -- An invalid connector token has nothing to unregister.
  unfoldable pub distributor_unregister : Option Text → Text → Text → Text → Handler StatusCode
  unfolding call
  distributor_unregister authorization install_id app_id connector_token = do
    owner ← authorize_unregister c (some install_id) (bearer_secret authorization)
    (elim (ConnectorToken.try_from connector_token) [
      | none ↦ respond no_content
      | some connector ↦ (do
        _ ← db_call (unregister_unified_push owner app_id connector)
        respond no_content)
    ])

  -- The entries, checked in order before anything is written.
  unfoldable pub validate_entries : List ReconcileEntry → Handler (List ReconcileEntry)
  unfolding valid_connector valid_vapid
  validate_entries [] = respond []
  validate_entries (entry ∷ entries) = do
    connector ← valid_connector entry.connector_token
    valid_vapid j entry.vapid
    rest ← validate_entries entries
    respond (record entry { connector_token = connector } ∷ rest)

abbrev pub entry_result : Text → Option Text → List (Text × Text)
entry_result connector none = []
entry_result connector (some token) = (connector, token) ∷ []

-- The loop over the entries: a connector of another app is left out of the answer.
unfoldable pub register_entries :
    Text → (ℕ → Text) → ℕ → List ReconcileEntry → Handler (List (Text × Text))
unfolding registered_endpoint call
register_entries install_id draw k [] = respond []
register_entries install_id draw k (entry ∷ entries) = do
  result ← register_call install_id entry.app_id entry.connector_token (draw k) entry.vapid
  found ← registered_endpoint result
  rest ← register_entries install_id draw (suc k) entries
  respond (entry_result entry.connector_token found ++ rest)

abbrev pub max_entries : ℕ
max_entries = 256

module _ (c : Crypto) (j : Jwt) where
  unfoldable pub distributor_reconcile :
      Option Text → Text → List ReconcileEntry → (ℕ → Text) → Handler (List (Text × Text))
  unfolding validate_entries register_entries call
  distributor_reconcile authorization install_id registrations draw =
      if ltb max_entries (length registrations)
      then refuse bad_request (bytes "too many registrations")
      else do
        validated ← validate_entries c j registrations
        identity ← authorize_register c (some install_id) (bearer_secret authorization)
        endpoints ← register_entries identity.install_id draw 0 validated
        _ ← db_call (
            delete_stale_unified_push_registrations identity.install_id
              (map (λ e. e.connector_token) validated))
        respond endpoints
