-- ===== src/Jni/Setup.antt =====
-- crates/jni/src/lib.rs: `run_mcs`, its checks and connections, and its loop over what they bring.
use pushcompat.Prelude.{
  ℕ, List, [], ◌∷◌, Option, none, some, Bool, true, false, ◌||◌, Text, ltb, length, lookup, insert,
  remove, if◌then◌else◌,
}
use pushcompat.Mcs.Data.{DataMessage}
use pushcompat.Mcs.Stream.{Item, item, error, ended, heartbeat, data_message, other}
use pushcompat.Fcm.Intent.{Json, Fields, intent_fields}

-- The fields of a `RunRegistration` that are read.
pub record RunRegistration : Type 0 where
  pub package_name : Text
  pub sender_id : Text
  pub persistent_ids : List Text

pub data Problem : Type 0 where
  no_registration too_many_identities too_many_ids empty_package : Problem
  empty_sender duplicate missing_session unexpected_sessions connect_failed : Problem

abbrev pub max_mcs_identities : ℕ
max_mcs_identities = 128

abbrev pub max_persistent_ids : ℕ
max_persistent_ids = 500

abbrev pub is_empty {ℓ} : {A : Type ℓ} → List A → Bool
is_empty [] = true
is_empty (x ∷ xs) = false

-- What connecting a session gives: a stream, an error, or the stop that came first.
pub data Connecting (S : Type 0) : Type 0 where
  connected : S → Connecting S
  failed stop_first : Connecting S

-- The senders and the streams by app, where all is set up.
pub data Setup (S : Type 0) : Type 0 where
  ready : List (Text × Text) → List (Text × S) → Setup S
  stopped : Setup S
  refused : Problem → Setup S

-- `D` is a session and `S` its stream.
module _ {S : Type 0} where
  abbrev pub joined : Connecting S → (S → Setup S) → Setup S
  joined (connected stream) rest = rest stream
  joined failed rest = refused connect_failed
  joined stop_first rest = stopped

  abbrev pub unless_known : Option Text → Setup S → Setup S
  unless_known none rest = rest
  unless_known (some sender) rest = refused duplicate

module _ {D S : Type 0} where
  abbrev pub with_session : Option D → (D → Setup S) → Setup S
  with_session none rest = refused missing_session
  with_session (some session) rest = rest session

  module _ (connect : D → List Text → Connecting S) where
    -- One registration, with what is left after it.
    abbrev pub set_up :
        RunRegistration
        → List (Text × D)
        → List (Text × Text)
        → List (Text × S)
        → (List (Text × D) → List (Text × Text) → List (Text × S) → Setup S)
        → Setup S
    set_up r sessions senders streams rest =
        if ltb max_persistent_ids (length r.persistent_ids)
        then refused too_many_ids
        else if is_empty r.package_name
        then refused empty_package
        else if is_empty r.sender_id
        then refused empty_sender
        else unless_known (lookup r.package_name senders) (
            with_session (lookup r.package_name sessions) (λ session.
              joined (connect session r.persistent_ids) (λ stream.
                rest (remove r.package_name sessions) (insert r.package_name r.sender_id senders)
                  (insert r.package_name stream streams))))

    unfoldable pub set_up_all :
        List RunRegistration → List (Text × D) → List (Text × Text) → List (Text × S) → Setup S
    unfolding lookup insert remove
    set_up_all [] sessions senders streams =
        if is_empty sessions then ready senders streams else refused unexpected_sessions
    set_up_all (r ∷ rs) sessions senders streams = set_up r sessions senders streams (set_up_all rs)

    -- `run_mcs` up to its loop, on what the JSON texts hold.
    unfoldable pub prepare : List RunRegistration → List (Text × D) → Setup S
    unfolding set_up_all
    prepare registrations sessions =
        if is_empty registrations
        then refused no_registration
        else if ltb max_mcs_identities (length registrations)
            || ltb max_mcs_identities (length sessions)
        then refused too_many_identities
        else set_up_all registrations sessions [] []

-- What the callback was given of a message: its app, its persistent id and its payload.
pub record Emitted : Type 0 where
  pub app_id : Text
  pub persistent_id : Option Text
  pub payload : Fields

-- The messages emitted and the stream ids acknowledged, newest first; an acknowledgement has the app
-- with the counter of its stream.
pub record Progress : Type 0 where
  pub emitted : List Emitted
  pub acked : List (Text × ℕ)

-- What the loop meets: a stop, or an item of an app's stream with the stream's counter, and whether
-- the callback and the write succeed.
pub data Event : Type 0 where
  stop : Event
  next : Text → Item DataMessage → ℕ → Bool → Bool → Event

-- Whether the loop goes on, returns, or returns an error.
pub data Flow : Type 0 where
  listening returned errored : Flow

abbrev pub write_ack : Text → ℕ → Bool → Progress → Flow × Progress
write_ack app_id stream_id true p = (listening, record p { acked = (app_id, stream_id) ∷ p.acked })
write_ack app_id stream_id false p = (errored, p)

abbrev pub emit : Emitted → Progress → Progress
emit event p = record p { emitted = event ∷ p.emitted }

abbrev pub on_data : Json → Text → DataMessage → Text → ℕ → Bool → Bool → Progress → Flow × Progress
on_data json app_id message sender_id stream_id false written p = (errored, p)
on_data json app_id message sender_id stream_id true written p =
    write_ack app_id stream_id written (
      emit
        (record {
          app_id = app_id;
          persistent_id = message.persistent_id;
          payload = intent_fields json message sender_id;
        })
        p)

abbrev pub on_sender :
    Json → Text → DataMessage → Option Text → ℕ → Bool → Bool → Progress → Flow × Progress
on_sender json app_id message none stream_id called written p = (errored, p)
on_sender json app_id message (some sender_id) stream_id called written p =
    on_data json app_id message sender_id stream_id called written p

unfoldable pub on_event : Json → List (Text × Text) → Event → Progress → Flow × Progress
unfolding lookup intent_fields
on_event json senders stop p = (returned, p)
on_event json senders (next app_id (item (data_message message)) stream_id called written) p =
    on_sender json app_id message (lookup app_id senders) stream_id called written p
on_event json senders (next app_id (item heartbeat) stream_id called written) p =
    write_ack app_id stream_id written p
on_event json senders (next app_id (item (other tag body)) stream_id called written) p =
    (listening, p)
on_event json senders (next app_id (error e) stream_id called written) p = (errored, p)
on_event json senders (next app_id ended stream_id called written) p = (errored, p)

abbrev pub go_on : (Progress → Flow × Progress) → Flow × Progress → Flow × Progress
go_on rest (listening, p) = rest p
go_on rest (returned, p) = (returned, p)
go_on rest (errored, p) = (errored, p)

-- The loop over the events that are given.
unfoldable pub event_loop : Json → List (Text × Text) → List Event → Progress → Flow × Progress
unfolding on_event
event_loop json senders [] p = (listening, p)
event_loop json senders (e ∷ es) p = go_on (event_loop json senders es) (on_event json senders e p)
