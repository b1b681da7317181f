-- ===== src/SocketV2/Order.antt =====
-- crates/bridge/src/socket_v2.rs, crates/bridge/src/db.rs: the order of delivery, and what an
-- acknowledgement deletes.
use pushcompat.Prelude.{
  ℕ, suc, ◌≤◌, ◌<◌, ◌≡◌, List, [], ◌∷◌, some, true, Text, find-some, length, select, delete, ◌==◌,
  leb, ltb, ◌&&◌, Bool-cases, inl, inr, arith, All, All-mono,
}
use pushcompat.Db.Tables.{Tables, OutboxRow}
use pushcompat.Prelude.Int.{ℤ, pos, negsuc}
use pushcompat.Types.Cursor.{clamp}
use pushcompat.Db.Outbox.{for_socket, next_socket_row, is_socket_message, is_socket_through, max_id}
use pushcompat.Db.Invariant.History.{WellFormed}
use pushcompat.SocketV2.Cursor.{AtLeast}
use pushcompat.Db.Invariant.Outbox.{Rising}

abbrev pub NotBefore : Text → ℕ → ℕ → OutboxRow → Type 0
NotBefore i cursor id row = for_socket i row ≡ true → cursor < row.id → id ≤ row.id

after_least :
    (i : Text) (cursor lo hi : ℕ) (rows : List OutboxRow)
    → Rising lo hi rows
    → All (NotBefore i cursor lo) rows
after_least i cursor lo hi [] r = tt
after_least i cursor lo hi (row ∷ rows) (h, r) = (
  (λ _ _. omega arith),
  All-mono (NotBefore i cursor row.id) (NotBefore i cursor lo) (λ x k e l. omega (arith, k e l))
      rows (after_least i cursor row.id hi rows r),
)

next_least :
    (i : Text) (cursor lo hi : ℕ) (rows : List OutboxRow) (row : OutboxRow)
    → Rising lo hi rows
    → next_socket_row i cursor rows ≡ some row
    → All (NotBefore i cursor row.id) rows
unfolding next_socket_row
next_least i cursor lo hi [] row r e = tt
next_least i cursor lo hi (x ∷ rows) row (h, r) e =
    elim (Bool-cases (for_socket i x && ltb cursor x.id)) [
      | inl m ↦ ground (arith, after_least i cursor x.id hi rows r)
      | inr m ↦ (ground arith, next_least i cursor x.id hi rows row r (ground arith))
    ]

pub next_found :
    (i : Text) (cursor : ℕ) (rows : List OutboxRow) (row : OutboxRow)
    → next_socket_row i cursor rows ≡ some row
    → (for_socket i row ≡ true) × (cursor < row.id)
unfolding next_socket_row
next_found i cursor rows row e =
    ground (arith, find-some (λ r. for_socket i r && ltb cursor r.id) rows row e)

-- The next message of an installation is one of its own above the cursor, and no other of its
-- messages above the cursor has a lower id.
pub next_socket_row-least :
    (i : Text) (cursor : ℕ) (t : Tables) (row : OutboxRow)
    → WellFormed t
    → next_socket_row i cursor t.outbox ≡ some row
    → (for_socket i row ≡ true) × (cursor < row.id) × All (NotBefore i cursor row.id) t.outbox
next_socket_row-least i cursor t row v e =
    let (own, above) = next_found i cursor t.outbox row e in
    (own, above, next_least i cursor 0 t.outbox_seq t.outbox row v.outbox.rising e)

abbrev pub Issued : ℕ → OutboxRow → Type 0
Issued hi row = row.id ≤ hi

pub Rising-top : (lo hi : ℕ) (rows : List OutboxRow) → Rising lo hi rows → lo ≤ hi
Rising-top lo hi [] r = r
Rising-top lo hi (row ∷ rows) (h, r) = omega (arith, Rising-top row.id hi rows r)

pub Rising-Issued : (lo hi : ℕ) (rows : List OutboxRow) → Rising lo hi rows → All (Issued hi) rows
Rising-Issued lo hi [] r = tt
Rising-Issued lo hi (row ∷ rows) (h, r) =
    (Rising-top row.id hi rows r, Rising-Issued row.id hi rows r)

-- A row that was acknowledged had been issued.
pub acked-Issued :
    (i : Text) (id hi : ℕ) (rows : List OutboxRow)
    → All (Issued hi) rows
    → (length (select (is_socket_message i id) rows) == 1) ≡ true
    → id ≤ hi
unfolding is_socket_message
acked-Issued i id hi [] h e = ground arith
acked-Issued i id hi (row ∷ rows) (h, k) e = elim (Bool-cases (for_socket i row && row.id == id)) [
  | inl m ↦ ground arith
  | inr m ↦ acked-Issued i id hi rows k (ground arith)
]

pub max_id-Issued : (hi : ℕ) (rows : List OutboxRow) → All (Issued hi) rows → max_id rows ≤ hi
unfolding max_id
max_id-Issued hi [] h = omega arith
max_id-Issued hi (row ∷ rows) (h, k) = ground (arith, max_id-Issued hi rows k)

pub clamp-le : (requested : ℤ) (n : ℕ) → clamp requested n ≤ n
unfolding clamp
clamp-le (pos m) n = ground arith
clamp-le (negsuc m) n = omega arith

-- What is left of an installation's messages after one of them, the lowest, is deleted.
pub ack_above :
    (i : Text) (id : ℕ) (rows : List OutboxRow)
    → All (AtLeast i id) rows
    → All (AtLeast i (suc id)) (delete (is_socket_message i id) rows)
unfolding is_socket_message
ack_above i id [] h = tt
ack_above i id (row ∷ rows) (h, k) = elim (Bool-cases (for_socket i row && row.id == id)) [
  | inl m ↦ rw (m, is_socket_message) (ack_above i id rows k)
  | inr m ↦ rw (m, is_socket_message) ((λ own. ground (arith, h own)), ack_above i id rows k)
]

pub ack_through_above :
    (i : Text) (cursor : ℕ) (rows : List OutboxRow)
    → All (AtLeast i (suc cursor)) (delete (is_socket_through i cursor) rows)
unfolding is_socket_through
ack_through_above i cursor [] = tt
ack_through_above i cursor (row ∷ rows) =
    elim (Bool-cases (for_socket i row && leb row.id cursor)) [
      | inl m ↦ rw (m, is_socket_through) (ack_through_above i cursor rows)
      | inr m ↦ rw (m, is_socket_through) ((λ own. ground arith), ack_through_above i cursor rows)
    ]

-- Above the cursor, and not before the next one.
pub next_above :
    (i : Text) (cursor id : ℕ) (rows : List OutboxRow)
    → All (AtLeast i (suc cursor)) rows
    → All (NotBefore i cursor id) rows
    → All (AtLeast i id) rows
next_above i cursor id [] h k = tt
next_above i cursor id (row ∷ rows) (h, hs) (k, ks) =
    ((λ own. ground (arith, h own, k own)), next_above i cursor id rows hs ks)
