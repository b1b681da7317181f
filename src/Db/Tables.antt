-- ===== src/Db/Tables.antt =====
-- crates/bridge/sql/schema.sql: the tables, as lists of rows in the order of their row ids, but
-- `acked_messages`, which has its newest row first. The columns `created_at`, which no statement
-- reads, are left out. `now` is CURRENT_TIMESTAMP, in seconds.
use pushcompat.Prelude.Int.{ℤ}
use pushcompat.Prelude.{ℕ, List, [], Option, Text, Bool, ◌&&◌, ◌=?◌}
use pushcompat.Types.Transport.{Transport}
use pushcompat.Types.MessageKind.{MessageKind}

pub record Installation : Type 0 where
  pub install_id : Text
  pub secret_hash : Text
  pub install_secret : Option Text
  pub updated_at : ℕ

-- `struct Registration` with the column `updated_at`, which the program never loads.
pub record Registration : Type 0 where
  pub install_id : Text
  pub app_id : Text
  pub secret_hash : Text
  pub endpoint : Text
  pub fcm_token : Option Text
  pub firebase_app_id : Text
  pub firebase_project_id : Text
  pub firebase_api_key : Text
  pub cert_sha1 : Option Text
  pub app_version : Option ℤ
  pub app_version_name : Option Text
  pub target_sdk : Option ℤ
  pub transport : Transport
  pub updated_at : ℕ

pub record FcmSession : Type 0 where
  pub install_id : Text
  pub app_id : Text
  pub registration_data : Text

pub record AckedMessage : Type 0 where
  pub install_id : Text
  pub app_id : Text
  pub persistent_id : Text

pub record UnifiedPushRegistration : Type 0 where
  pub install_id : Text
  pub app_id : Text
  pub connector_token : Text
  pub endpoint_token : Text
  pub vapid_pubkey : Option Text
  pub updated_at : ℕ

pub record OutboxRow : Type 0 where
  pub id : ℕ
  pub install_id : Text
  pub app_id : Text
  pub kind : MessageKind
  pub transport : Transport
  pub connector_token : Option Text
  pub persistent_id : Option Text
  pub payload : Text
  pub attempts : ℕ
  pub next_attempt_at : ℕ

-- `outbox_seq` is the row of `sqlite_sequence` that AUTOINCREMENT keeps for the outbox: the largest
-- id that an insertion ever took, also one that was ignored.
pub record Tables : Type 0 where
  pub installations : List Installation
  pub registrations : List Registration
  pub fcm_sessions : List FcmSession
  pub acked_messages : List AckedMessage
  pub unified_push_registrations : List UnifiedPushRegistration
  pub outbox : List OutboxRow
  pub outbox_seq : ℕ
  pub now : ℕ

abbrev pub empty_tables : Tables
empty_tables = record {
  installations = [];
  registrations = [];
  fcm_sessions = [];
  acked_messages = [];
  unified_push_registrations = [];
  outbox = [];
  outbox_seq = 0;
  now = 0;
}

-- The key (install_id, app_id), which four tables share.
abbrev pub is_pair : Text → Text → Text → Text → Bool
is_pair install_id app_id i a = i =? install_id && a =? app_id
