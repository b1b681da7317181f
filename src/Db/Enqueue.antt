-- ===== src/Db/Enqueue.antt =====
-- crates/bridge/src/db.rs: the two insertions into the outbox.
use pushcompat.Prelude.{
  ℕ, suc, [], ◌∷◌, ◌++◌, Option, none, some, Bool, true, false, not, ◌&&◌, Text, ◌=??◌, ◌==◌, any,
  find, reverse, if◌then◌else◌,
}
use pushcompat.Types.Transport.{Transport, web_socket}
use pushcompat.Types.MessageKind.{MessageKind, fcm, unified_push}
use pushcompat.Db.Tables.{Tables, OutboxRow, is_pair}
use pushcompat.Db.Acks.{is_ack, note_ack}

unfoldable pub is_acked : Text → Text → Option Text → Tables → Bool
unfolding is_ack
is_acked install_id app_id none t = false
is_acked install_id app_id (some pid) t = any (is_ack install_id app_id pid) t.acked_messages

abbrev pub is_empty : Text → Bool
is_empty [] = true
is_empty (b ∷ bs) = false

-- The key of the unique index over the rows that have a persistent id.
unfoldable pub has_persistent_id : Text → Text → Text → OutboxRow → Bool
has_persistent_id install_id app_id pid row =
    is_pair install_id app_id row.install_id row.app_id && row.persistent_id =?? some pid

-- A row with AUTOINCREMENT's next id, due at once.
unfoldable pub append_row :
    Text → Text → MessageKind → Transport → Option Text → Option Text → Text → Tables → Tables
append_row install_id app_id kind transport connector_token persistent_id payload t = record t {
  outbox = t.outbox ++ row ∷ [];
  outbox_seq = suc t.outbox_seq;
}
  where
    row : OutboxRow
    row = record {
      id = suc t.outbox_seq;
      install_id = install_id;
      app_id = app_id;
      kind = kind;
      transport = transport;
      connector_token = connector_token;
      persistent_id = persistent_id;
      payload = payload;
      attempts = 0;
      next_attempt_at = t.now;
    }

abbrev pub skip_id : Tables → Tables
skip_id t = record t { outbox_seq = suc t.outbox_seq }

-- INSERT OR IGNORE against the unique index. A row that is ignored has taken an id of AUTOINCREMENT.
unfoldable pub insert_fcm : Text → Text → Transport → Option Text → Text → Tables → Tables
unfolding has_persistent_id append_row
insert_fcm install_id app_id transport none payload t =
    append_row install_id app_id fcm transport none none payload t
insert_fcm install_id app_id transport (some pid) payload t =
    if any (has_persistent_id install_id app_id pid) t.outbox
    then skip_id t
    else append_row install_id app_id fcm transport none (some pid) payload t

abbrev pub id_of : Option OutboxRow → Option ℕ
id_of none = none
id_of (some row) = some row.id

-- The id that the SELECT after it finds: the highest that has the persistent id, or, with none,
-- that of the row just inserted. `none` is `QueryReturnedNoRows`.
unfoldable pub inserted_id : Text → Text → Option Text → Tables → Option ℕ
unfolding has_persistent_id
inserted_id install_id app_id none t = id_of (
    find (λ row. is_pair install_id app_id row.install_id row.app_id && row.id == t.outbox_seq)
      (reverse t.outbox))
inserted_id install_id app_id (some pid) t =
    id_of (find (has_persistent_id install_id app_id pid) (reverse t.outbox))

unfoldable pub remember : Text → Text → Option Text → Tables → Tables
unfolding note_ack
remember install_id app_id none t = t
remember install_id app_id (some pid) t = record t {
  acked_messages = note_ack install_id app_id pid t.acked_messages;
}

-- What the transaction gives back. An error rolls it back.
pub data Enqueued : Type 0 where
  queued : ℕ → Enqueued
  skipped no_rows : Enqueued

abbrev pub commit_insert :
    Text → Text → Option Text → Tables → Tables → Option ℕ → Enqueued × Tables
commit_insert install_id app_id persistent_id before after none = (no_rows, before)
commit_insert install_id app_id persistent_id before after (some id) =
    (queued id, remember install_id app_id persistent_id after)

-- A message whose id was acknowledged before, or with no payload, is only remembered.
unfoldable pub enqueue_fcm_message :
    Text → Text → Transport → Option Text → Text → Tables → Enqueued × Tables
unfolding is_acked insert_fcm inserted_id remember
enqueue_fcm_message install_id app_id transport persistent_id payload t =
    if not (is_acked install_id app_id persistent_id t) && not (is_empty payload)
    then (let after = insert_fcm install_id app_id transport persistent_id payload t in
        commit_insert install_id app_id persistent_id t after
          (inserted_id install_id app_id persistent_id after))
    else (skipped, remember install_id app_id persistent_id t)

unfoldable pub enqueue_unified_push_message : Text → Text → Text → Text → Tables → ℕ × Tables
unfolding append_row
enqueue_unified_push_message install_id app_id connector_token payload t =
    let after =
      append_row install_id app_id unified_push web_socket (some connector_token) none payload t in
    (after.outbox_seq, after)
