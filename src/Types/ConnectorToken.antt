-- ===== src/Types/ConnectorToken.antt =====
-- crates/bridge/src/types.rs: `ConnectorToken`.
use pushcompat.Prelude.{ℕ, ◌||◌, Option, none, some, Text, length, ltb, ◌==◌, if◌then◌else◌}

abbrev pub max_connector_token_len : ℕ
max_connector_token_len = 100

-- `TryFrom<String>`: not empty, and at most 100 bytes. `none` is `InvalidConnectorToken`.
unfoldable pub try_from : Text → Option Text
try_from value =
    if length value == 0 || ltb max_connector_token_len (length value) then none else some value
