-- ===== src/Fcm/Replay.antt =====
-- crates/bridge/src/fcm.rs: the persistent ids that `run_listener` sends with each login, oldest
-- first.
use pushcompat.Prelude.{
  List, [], ◌∷◌, ◌++◌, Option, none, some, Bool, Text, ◌=?◌, any, reverse, ltb, length,
  if◌then◌else◌,
}
use pushcompat.Db.Tables.{Tables}
use pushcompat.Db.Acks.{recent_acks, max_ack_history}

abbrev pub contains : List Text → Text → Bool
contains ids pid = any (λ i. i =? pid) ids

-- The list on disk, newest first, turned round. A failed query counts as an empty list.
unfoldable pub restored_ids : Text → Text → Tables → List Text
restored_ids install_id app_id t = reverse (recent_acks install_id app_id max_ack_history t)

abbrev pub remove_first : List Text → List Text
remove_first [] = []
remove_first (x ∷ xs) = xs

-- After a data message is stored: a new id comes last, and the oldest goes from a full list.
unfoldable pub push_id : Option Text → List Text → List Text
push_id none ids = ids
push_id (some pid) ids =
    if contains ids pid
    then ids
    else (let pushed = ids ++ pid ∷ [] in
        if ltb max_ack_history (length pushed) then remove_first pushed else pushed)
