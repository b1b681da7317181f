-- ===== src/Fcm/Sender.antt =====
-- crates/bridge/src/fcm.rs: `extract_sender_id`.
use pushcompat.Prelude.{
  List, [], ◌∷◌, Option, none, some, Bool, true, false, not, ◌&&◌, ◌||◌, Text, bytes, ◌=?◌, all,
  if◌then◌else◌, split, is_ascii_digit,
}

abbrev pub is_empty : Text → Bool
is_empty [] = true
is_empty (b ∷ bs) = false

-- "1:<sender_id>:android:<hash>", or "web"; what follows a fourth colon is not looked at.
unfoldable pub sender_of_parts : List Text → Option Text
sender_of_parts (version ∷ sender ∷ platform ∷ hash ∷ rest) =
    if (version =? bytes "1" && (not (is_empty sender) && all is_ascii_digit sender))
      && ((platform =? bytes "android" || platform =? bytes "web") && not (is_empty hash))
    then some sender
    else none
sender_of_parts _ = none

unfoldable pub extract_sender_id : Text → Option Text
unfolding sender_of_parts split
extract_sender_id firebase_app_id = sender_of_parts (split b':' firebase_app_id)
