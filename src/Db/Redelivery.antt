-- ===== src/Db/Redelivery.antt =====
-- crates/bridge/src/db.rs: what `enqueue_fcm_message` comes to, and a message whose id is acknowledged.
use pushcompat.Prelude.{
  ◌++◌, ◌⊎◌, ℕ, suc, ◌≡◌, ◌∙◌, ap, List, [], ◌∷◌, Option, none, some, true, false, Text, arith,
}
use pushcompat.Types.Transport.{Transport}
use pushcompat.Db.Tables.{Tables, OutboxRow}
use pushcompat.Db.Acks.{of_app, with_ack, note_ack, max_ack_history}
use pushcompat.Db.Enqueue.{Enqueued, queued, skipped, is_acked, remember, enqueue_fcm_message}
use pushcompat.Db.AckBounds.{keep_recent-short, AcksBounded}
use pushcompat.Db.Insertion.{new_row, has_row, HasRow, enqueue_fcm_total}

-- Whether the id of a message is among those of its app that the tables remember.
abbrev pub Remembered : Text → Text → Option Text → Tables → Type 0
Remembered i a none u = Unit
Remembered i a (some pid) u = is_acked i a (some pid) u ≡ true

-- The three ends of an insertion, from the tables before it.
abbrev pub Inserted :
    Text → Text → Transport → Option Text → Text → Tables → Enqueued → List OutboxRow → Type 0
Inserted i a via pid body t result rows =
    ((result ≡ skipped) × ((is_acked i a pid t ≡ true) ⊎ (body ≡ [])) × (rows ≡ t.outbox))
    ⊎ (((result ≡ queued (suc t.outbox_seq))
          × (is_acked i a pid t ≡ false)
          × (has_row i a pid t ≡ false)
          × (rows ≡ t.outbox ++ new_row i a via pid body t ∷ []))
        ⊎ ((id : ℕ) × (result ≡ queued id)
            × (is_acked i a pid t ≡ false)
            × HasRow i a pid t id
            × (rows ≡ t.outbox)))

remember_again :
    (i a pid : Text) (t : Tables)
    → AcksBounded t
    → is_acked i a (some pid) t ≡ true
    → remember i a (some pid) t ≡ t
unfolding remember is_acked note_ack with_ack
remember_again i a pid t h e =
    ap (λ rows. record t { acked_messages = rows })
      (rw e (keep_recent-short (of_app i a) max_ack_history t.acked_messages (h i a)))

-- A message whose id is acknowledged is skipped and changes nothing.
pub acked_skipped :
    (i a pid : Text) (again : Transport) (other : Text) (u : Tables)
    → AcksBounded u
    → is_acked i a (some pid) u ≡ true
    → enqueue_fcm_message i a again (some pid) other u ≡ (skipped, u)
acked_skipped i a pid again other u h e =
    (enqueue_fcm_total i a again (some pid) other u).1 (ground (arith, e))
    ∙ ap (λ (v : Tables). (skipped, v)) (remember_again i a pid u h e)
