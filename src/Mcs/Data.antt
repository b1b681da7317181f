-- ===== src/Mcs/Data.antt =====
-- crates/listener/src/push.rs: `DataMessage`.
use pushcompat.Prelude.{List, [], ◌∷◌, Option, none, some, Text, ◌=?◌, find}

-- The fields of the generated `DataMessageStanza` that are read.
pub record DataMessageStanza : Type 0 where
  pub id : Option Text
  pub from : Text
  pub category : Text
  pub token : Option Text
  pub app_data : List (Text × Text)
  pub persistent_id : Option Text
  pub raw_data : Option Text

pub record DataMessage : Type 0 where
  pub raw_data : Option Text
  pub persistent_id : Option Text
  pub app_data : List (Text × Text)
  pub from : Option Text
  pub category : Option Text
  pub id : Option Text
  pub collapse_key : Option Text

abbrev pub non_empty : Text → Option Text
non_empty [] = none
non_empty (b ∷ bs) = some (b ∷ bs)

abbrev pub of_stanza : DataMessageStanza → DataMessage
of_stanza message = record {
  raw_data = message.raw_data;
  persistent_id = message.persistent_id;
  app_data = message.app_data;
  from = non_empty message.from;
  category = non_empty message.category;
  id = message.id;
  collapse_key = message.token;
}

-- `DataMessage::decode`, with the generated reader `from_reader`.
unfoldable pub decode : (Text → Option DataMessageStanza) → Text → Option DataMessage
decode from_reader bytes = elim (from_reader bytes) [
  | none ↦ none
  | some message ↦ some (of_stanza message)
]

abbrev value_of : Option (Text × Text) → Option Text
value_of none = none
value_of (some (k, v)) = some v

-- The value of the first pair that has the key.
unfoldable pub get_app_data : Text → DataMessage → Option Text
get_app_data key message = value_of (find (λ pair. pair.0 =? key) message.app_data)
