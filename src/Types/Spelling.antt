-- ===== src/Types/Spelling.antt =====
-- crates/bridge/src/types.rs: the spellings in requests and in the database, and the ids accepted.
use pushcompat.Prelude.{◌≡◌, ◌↔◌, some, Text, bytes, =?_iff, arith}
use pushcompat.Types.Transport
use pushcompat.Types.Transport.{Transport}
use pushcompat.Types.MessageKind
use pushcompat.Types.MessageKind.{MessageKind}

-- A text is read as a transport exactly if it is that transport's spelling.
pub Transport-try_from_iff :
    (s : Text) (via : Transport) → (Transport.try_from s ≡ some via) ↔ (s ≡ Transport.as_ref via)
unfolding Transport.try_from Transport.as_ref
Transport-try_from_iff s Transport.web_socket =
    ground (arith, =?_iff s (bytes "websocket"), =?_iff s (bytes "unified_push"))
Transport-try_from_iff s Transport.unified_push =
    ground (arith, =?_iff s (bytes "websocket"), =?_iff s (bytes "unified_push"))

-- A text is read as a kind of message exactly if it is that kind's spelling.
pub MessageKind-try_from_iff :
    (s : Text) (k : MessageKind) → (MessageKind.try_from s ≡ some k) ↔ (s ≡ MessageKind.as_ref k)
unfolding MessageKind.try_from MessageKind.as_ref
MessageKind-try_from_iff s MessageKind.fcm =
    ground (arith, =?_iff s (bytes "fcm"), =?_iff s (bytes "unified_push"))
MessageKind-try_from_iff s MessageKind.unified_push =
    ground (arith, =?_iff s (bytes "fcm"), =?_iff s (bytes "unified_push"))
