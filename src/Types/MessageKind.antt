-- ===== src/Types/MessageKind.antt =====
-- crates/bridge/src/types.rs: `MessageKind`.
use pushcompat.Prelude.{Bool, true, false, Option, none, some, Text, bytes, ◌=?◌, if◌then◌else◌}

pub data MessageKind : Type 0 where
  fcm unified_push : MessageKind

unfoldable pub as_ref : MessageKind → Text
as_ref fcm = bytes "fcm"
as_ref unified_push = bytes "unified_push"

-- `TryFrom<&str>`. `none` is `InvalidMessageKind`.
unfoldable pub try_from : Text → Option MessageKind
unfolding ◌=?◌
try_from value =
    if value =? bytes "fcm"
    then some fcm
    else if value =? bytes "unified_push"
    then some unified_push
    else none

abbrev pub is_fcm : MessageKind → Bool
is_fcm fcm = true
is_fcm unified_push = false
