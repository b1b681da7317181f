-- ===== src/Fcm/Extras.antt =====
-- crates/bridge/src/fcm.rs: which source an extra of the intent comes from.
use pushcompat.Prelude.{
  unwrap_or, ◌≡◌, refl, ap, ap₂, ◌∙◌, List, [], ◌∷◌, Option, none, some, Text, bytes, ◌=?◌, =?_iff,
  lookup, insert, lookup-insert, if◌then◌else◌, arith,
}
use pushcompat.Mcs.Data.{DataMessage}
use pushcompat.Fcm.Intent.{
  Json, Fields, insert_all, raw_fields, or_else, insert_some, metadata, intent_fields,
}

-- The last value of a key in a list of pairs.
unfoldable pub last_value : Text → List (Text × Text) → Option Text
last_value k [] = none
last_value k ((j, v) ∷ pairs) = or_else (last_value k pairs) (if j =? k then some v else none)

lookup-insert_all :
    (k : Text) (pairs : List (Text × Text)) (fields : Fields)
    → lookup k (insert_all pairs fields) ≡ or_else (last_value k pairs) (lookup k fields)
unfolding insert_all last_value
lookup-insert_all k [] fields = refl
lookup-insert_all k ((j, v) ∷ pairs) fields =
    lookup-insert_all k pairs (insert j v fields) ∙ ground (arith, lookup-insert j k v fields)

nothing_before :
    (k : Text) (pairs : List (Text × Text))
    → or_else (last_value k pairs) (lookup k []) ≡ last_value k pairs
unfolding lookup
nothing_before k pairs = ground arith

-- The last value of a key that is there.
unfoldable pub last_some : Text → List (Text × Option Text) → Option Text
last_some k [] = none
last_some k ((j, v) ∷ pairs) = or_else (last_some k pairs) (if j =? k then v else none)

lookup-insert_some :
    (k : Text) (pairs : List (Text × Option Text)) (fields : Fields)
    → lookup k (insert_some pairs fields) ≡ or_else (last_some k pairs) (lookup k fields)
unfolding insert_some last_some
lookup-insert_some k [] fields = refl
lookup-insert_some k ((j, none) ∷ pairs) fields = lookup-insert_some k pairs fields ∙ ground arith
lookup-insert_some k ((j, some v) ∷ pairs) fields =
    lookup-insert_some k pairs (insert j v fields) ∙ ground (arith, lookup-insert j k v fields)

-- What the stanza itself says of a key.
unfoldable pub stanza_value : Text → DataMessage → Text → Option Text
stanza_value k message sender_id =
    if k =? bytes "google.message_id"
    then or_else message.id message.persistent_id
    else if k =? bytes "from"
    then some (unwrap_or message.from sender_id)
    else if k =? bytes "google.c.sender.id"
    then some sender_id
    else if k =? bytes "collapse_key"
    then message.collapse_key
    else none

last_some-metadata :
    (k : Text) (message : DataMessage) (sender_id : Text)
    → last_some k (metadata message sender_id) ≡ stanza_value k message sender_id
unfolding last_some metadata stanza_value
last_some-metadata k message sender_id = ground (
  arith,
  =?_iff k (bytes "google.message_id"),
  =?_iff k (bytes "from"),
  =?_iff k (bytes "google.c.sender.id"),
  =?_iff k (bytes "collapse_key"),
  =?_iff (bytes "google.message_id") k,
  =?_iff (bytes "from") k,
  =?_iff (bytes "google.c.sender.id") k,
  =?_iff (bytes "collapse_key") k,
)

-- An extra of the intent is what the stanza says of its key, or else the last value that the raw
-- data gives it, or else the last of the app's pairs with that key.
pub lookup-intent_fields :
    (json : Json) (message : DataMessage) (sender_id k : Text)
    → lookup k (intent_fields json message sender_id)
      ≡ or_else (stanza_value k message sender_id) (
          or_else (last_value k (raw_fields json message.raw_data)) (last_value k message.app_data))
unfolding intent_fields
lookup-intent_fields json message sender_id k =
    lookup-insert_some k (metadata message sender_id)
      (insert_all (raw_fields json message.raw_data) (insert_all message.app_data []))
    ∙ ap₂ or_else (last_some-metadata k message sender_id) (
        lookup-insert_all k (raw_fields json message.raw_data) (insert_all message.app_data [])
        ∙ ap (or_else (last_value k (raw_fields json message.raw_data)))
            (lookup-insert_all k message.app_data [] ∙ nothing_before k message.app_data))
