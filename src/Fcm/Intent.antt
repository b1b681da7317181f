-- ===== src/Fcm/Intent.antt =====
-- crates/bridge/src/fcm.rs: `build_intent_payload`, the extras of the intent that an app receives.
-- `serde_json::Map` is the association list of its entries.
use pushcompat.Prelude.{unwrap_or, List, [], ◌∷◌, Option, none, some, Text, bytes, insert}
use pushcompat.Mcs.Data.{DataMessage}

-- A value of a JSON object: a string, or another value by what `to_string` prints of it.
pub data Value : Type 0 where
  string printed : Text → Value

-- `serde_json` and `String::from_utf8_lossy`. `read_object` is `from_slice` where it gives an object.
pub record Json : Type 0 where
  pub read_object : Text → Option (List (Text × Value))
  pub from_utf8_lossy : Text → Text
  pub to_vec : List (Text × Text) → Option Text

abbrev pub text_of : Value → Text
text_of (string value) = value
text_of (printed value) = value

abbrev pub Fields : Type 0
Fields = List (Text × Text)

-- The pairs one after another, so that a later one replaces an earlier one with its key.
unfoldable pub insert_all : List (Text × Text) → Fields → Fields
insert_all [] fields = fields
insert_all ((key, value) ∷ pairs) fields = insert_all pairs (insert key value fields)

abbrev pub texts_of : List (Text × Value) → List (Text × Text)
texts_of [] = []
texts_of ((key, value) ∷ fields) = (key, text_of value) ∷ texts_of fields

-- The pairs that the raw data gives: those of its object, or its text as the message.
unfoldable pub raw_fields : Json → Option Text → List (Text × Text)
raw_fields json none = []
raw_fields json (some raw) = elim (json.read_object raw) [
  | some fields ↦ texts_of fields
  | none ↦ (bytes "message", json.from_utf8_lossy raw) ∷ []
]

abbrev pub or_else : Option Text → Option Text → Option Text
or_else none b = b
or_else (some a) b = some a

-- The values that are there.
unfoldable pub insert_some : List (Text × Option Text) → Fields → Fields
insert_some [] fields = fields
insert_some ((key, none) ∷ pairs) fields = insert_some pairs fields
insert_some ((key, some value) ∷ pairs) fields = insert_some pairs (insert key value fields)

-- The stanza's own metadata.
unfoldable pub metadata : DataMessage → Text → List (Text × Option Text)
metadata message sender_id =
    (bytes "google.message_id", or_else message.id message.persistent_id)
    ∷ (bytes "from", some (unwrap_or message.from sender_id))
    ∷ (bytes "google.c.sender.id", some sender_id)
    ∷ (bytes "collapse_key", message.collapse_key)
    ∷ []

unfoldable pub intent_fields : Json → DataMessage → Text → Fields
unfolding insert_all raw_fields insert_some metadata
intent_fields json message sender_id =
    insert_some (metadata message sender_id)
      (insert_all (raw_fields json message.raw_data) (insert_all message.app_data []))

unfoldable pub build_intent_payload : Json → DataMessage → Text → Text
unfolding intent_fields
build_intent_payload json message sender_id =
    unwrap_or (json.to_vec (intent_fields json message sender_id)) []
