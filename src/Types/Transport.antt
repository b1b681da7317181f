-- ===== src/Types/Transport.antt =====
-- crates/bridge/src/types.rs: `Transport`.
use pushcompat.Prelude.{Bool, true, false, Option, none, some, Text, bytes, ◌=?◌, if◌then◌else◌}

pub data Transport : Type 0 where
  web_socket unified_push : Transport

-- `AsRef<str>`: the spelling in the database and in requests.
unfoldable pub as_ref : Transport → Text
as_ref web_socket = bytes "websocket"
as_ref unified_push = bytes "unified_push"

-- `TryFrom<&str>`. `none` is `InvalidTransport`.
unfoldable pub try_from : Text → Option Transport
unfolding ◌=?◌
try_from value =
    if value =? bytes "websocket"
    then some web_socket
    else if value =? bytes "unified_push"
    then some unified_push
    else none

-- Two transports compared by `==`.
abbrev pub same : Transport → Transport → Bool
same web_socket web_socket = true
same unified_push unified_push = true
same _ _ = false
