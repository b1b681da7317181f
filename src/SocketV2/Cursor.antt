-- ===== src/SocketV2/Cursor.antt =====
-- crates/bridge/src/socket_v2.rs: no message is passed over. Of an installation's messages the
-- database never holds one below what its attachment has reached.
use pushcompat.Prelude.{
  ℕ, suc, ◌≤◌, ◌≡◌, List, [], ◌∷◌, true, Text, ◌==◌, update, Bool-cases, inl, inr, arith, All,
  All-delete, All-append,
}
use pushcompat.Db.Tables.{Tables, OutboxRow}
use pushcompat.Db.Outbox.{for_socket, deferred}
use pushcompat.Db.Calls.{Call, step}
use pushcompat.Db.Evolution.{OutboxRule, step-Holds}
use pushcompat.SocketV2.Connection.{AttachmentState, ready, awaiting_ack}

-- The least id that a message of the installation may have.
abbrev pub floor : AttachmentState → ℕ
floor (ready cursor) = suc cursor
floor (awaiting_ack id) = id

abbrev pub AtLeast : Text → ℕ → OutboxRow → Type 0
AtLeast i n row = for_socket i row ≡ true → n ≤ row.id

pub record Reached (i : Text) (n : ℕ) (rows : List OutboxRow) (seq : ℕ) : Type 0 where
  pub above : All (AtLeast i n) rows
  pub issued : n ≤ suc seq

defer_above :
    (i : Text) (n id at : ℕ) (rows : List OutboxRow)
    → All (AtLeast i n) rows
    → All (AtLeast i n) (update (λ row. row.id == id) (deferred at) rows)
unfolding for_socket
defer_above i n id at [] h = tt
defer_above i n id at (row ∷ rows) (h, k) = elim (Bool-cases (row.id == id)) [
  | inl e ↦ rw e (h, defer_above i n id at rows k)
  | inr e ↦ rw e (h, defer_above i n id at rows k)
]

Reached-rule : (i : Text) (n : ℕ) → OutboxRule (Reached i n)
Reached-rule i n = record {
  on_delete =
      λ d rows seq r. record { above = All-delete (AtLeast i n) d rows r.above; issued = r.issued };
  on_defer =
      λ id at rows seq r. record { above = defer_above i n id at rows r.above; issued = r.issued };
  on_skip = λ rows seq r. record { above = r.above; issued = omega (arith, r.issued) };
  on_append = λ row rows seq e r. record {
    above =
        All-append (AtLeast i n) rows (row ∷ []) r.above ((λ _. omega (arith, e, r.issued)), tt);
    issued = omega (arith, r.issued);
  };
}

-- What an attachment has reached, whatever the database is called for.
pub step-Reached :
    (c : Call) (i : Text) (n : ℕ) (t : Tables)
    → Reached i n t.outbox t.outbox_seq
    → Reached i n (step c t).outbox (step c t).outbox_seq
step-Reached c i n t r = step-Holds (Reached-rule i n) c t r
