-- ===== src/SocketV2/Drained.antt =====
-- crates/bridge/src/db.rs, as crates/bridge/src/socket_v2.rs calls it: a client that acknowledges
-- each message gets the whole queue of its installation.
use pushcompat.Prelude.{
  ℕ, zero, suc, ◌≤◌, ◌<◌, ◌≡◌, refl, sym, ap, ◌∙◌, inl, inr, List, [], ◌∷◌, Option, none, some,
  Bool, Text, ◌&&◌, ◌==◌, leb, ltb, find, select, delete, length, map, Bool-cases, arith,
}
use mathlib.Core.Option
use pushcompat.Db.Tables.{Tables, OutboxRow}
use pushcompat.Db.Outbox.{
  OutboxMessage, message_of, for_socket, next_socket_row, next_socket_message, is_socket_message,
  ack_socket_message, is_socket_through, ack_socket_through,
}
use pushcompat.Db.Invariant.History.{WellFormed}
use pushcompat.Db.Invariant.Outbox.{Rising}

-- The messages that wait for an installation, oldest first.
abbrev pub queue : Text → Tables → List OutboxRow
queue i t = select (for_socket i) t.outbox

-- A client: it asks for the message above the last one that it had, and acknowledges it, at most
-- `n` times. It gives the messages that it got.
abbrev pub take_next :
    Text
    → (ℕ → Tables → List OutboxMessage × Tables)
    → Tables
    → Option OutboxMessage
    → List OutboxMessage × Tables
take_next i rest t none = ([], t)
take_next i rest t (some m) = let (ms, u) = rest m.id (ack_socket_message i m.id t).1 in (m ∷ ms, u)

unfoldable pub drain : ℕ → Text → ℕ → Tables → List OutboxMessage × Tables
drain zero i cursor t = ([], t)
drain (suc n) i cursor t = take_next i (drain n i) t (next_socket_message i cursor t)

module _ {ℓ} {A : Type ℓ} where
  delete-unselected : (p : A → Bool) (xs : List A) → select p xs ≡ [] → delete p xs ≡ xs
  delete-unselected p [] h = refl
  delete-unselected p (x ∷ xs) h = ground (arith, delete-unselected p xs)

  find-select : (p q : A → Bool) (xs : List A) → find (λ x. p x && q x) xs ≡ find q (select p xs)
  find-select p q [] = refl
  find-select p q (x ∷ xs) = ground (arith, find-select p q xs)

  select-delete_both :
      (p q : A → Bool) (xs : List A)
      → select p (delete (λ x. p x && q x) xs) ≡ delete q (select p xs)
  select-delete_both p q [] = refl
  select-delete_both p q (x ∷ xs) = ground (arith, select-delete_both p q xs)

  delete-delete_both :
      (p q : A → Bool) (xs : List A) → delete p (delete (λ x. p x && q x) xs) ≡ delete p xs
  delete-delete_both p q [] = refl
  delete-delete_both p q (x ∷ xs) = ground (arith, delete-delete_both p q xs)

-- The ids rise from above a bound.
abbrev Above : ℕ → List OutboxRow → Type 0
Above lo [] = Unit
Above lo (row ∷ rows) = (lo < row.id) × Above row.id rows

Above-mono : (lo mid : ℕ) (rows : List OutboxRow) → lo ≤ mid → Above mid rows → Above lo rows
Above-mono lo mid [] h r = tt
Above-mono lo mid (row ∷ rows) h r = (omega arith, r.1)

Rising-Above : (lo hi : ℕ) (rows : List OutboxRow) → Rising lo hi rows → Above lo rows
Rising-Above lo hi [] r = tt
Rising-Above lo hi (row ∷ rows) (h, r) = (h, Rising-Above row.id hi rows r)

Above-select :
    (p : OutboxRow → Bool) (lo : ℕ) (rows : List OutboxRow)
    → Above lo rows
    → Above lo (select p rows)
Above-select p lo [] r = r
Above-select p lo (row ∷ rows) (h, r) = elim (Bool-cases (p row)) [
  | inl e ↦ rw e (h, Above-select p row.id rows r)
  | inr e ↦ rw e (Above-mono lo row.id (select p rows) (omega arith) (Above-select p row.id rows r))
]

select_beyond :
    (cursor lo : ℕ) (rows : List OutboxRow)
    → Above lo rows
    → Above cursor (select (λ r. ltb cursor r.id) rows)
select_beyond cursor lo [] r = tt
select_beyond cursor lo (row ∷ rows) (h, r) = elim (Bool-cases (ltb cursor row.id)) [
  | inl e ↦ rw e (ground arith, Above-select (λ x. ltb cursor x.id) row.id rows r)
  | inr e ↦ rw e (select_beyond cursor row.id rows r)
]

-- No id twice.
delete-Above :
    (id lo : ℕ) (rows : List OutboxRow)
    → id ≤ lo
    → Above lo rows
    → delete (λ r. r.id == id) rows ≡ rows
delete-Above id lo [] h r = refl
delete-Above id lo (row ∷ rows) h (k, r) =
    ground (arith, delete-Above id row.id rows (omega arith) r)

delete_through :
    (cursor : ℕ) (rows : List OutboxRow)
    → delete (λ r. leb r.id cursor) rows ≡ select (λ r. ltb cursor r.id) rows
delete_through cursor [] = refl
delete_through cursor (row ∷ rows) = ground (arith, delete_through cursor rows)

next_of_queue :
    (i : Text) (cursor : ℕ) (t : Tables)
    → next_socket_row i cursor t.outbox ≡ find (λ r. ltb cursor r.id) (queue i t)
unfolding next_socket_row
next_of_queue i cursor t = find-select (for_socket i) (λ r. ltb cursor r.id) t.outbox

abbrev pub emptied : Text → Tables → Tables
emptied i t = record t { outbox = delete (for_socket i) t.outbox }

queue-ack :
    (i : Text) (id : ℕ) (t : Tables)
    → queue i (ack_socket_message i id t).1 ≡ delete (λ r. r.id == id) (queue i t)
unfolding ack_socket_message is_socket_message
queue-ack i id t = select-delete_both (for_socket i) (λ r. r.id == id) t.outbox

emptied-ack :
    (i : Text) (id : ℕ) (t : Tables) → emptied i (ack_socket_message i id t).1 ≡ emptied i t
unfolding ack_socket_message is_socket_message
emptied-ack i id t =
    ap (λ rows. record t { outbox = rows })
      (delete-delete_both (for_socket i) (λ r. r.id == id) t.outbox)

next_of :
    (i : Text) (cursor : ℕ) (t : Tables) (o : Option OutboxRow)
    → next_socket_row i cursor t.outbox ≡ o
    → next_socket_message i cursor t ≡ Option.map (message_of none) o
unfolding next_socket_message
next_of i cursor t none e = rw (e, next_socket_message) refl
next_of i cursor t (some row) e = rw (e, next_socket_message) refl

nothing_next :
    (i : Text) (cursor : ℕ) (t : Tables) → queue i t ≡ [] → next_socket_message i cursor t ≡ none
nothing_next i cursor t e =
    next_of i cursor t none (next_of_queue i cursor t ∙ ap (find (λ r. ltb cursor r.id)) e)

first_next :
    (i : Text) (cursor : ℕ) (t : Tables) (row : OutboxRow) (q : List OutboxRow)
    → queue i t ≡ row ∷ q
    → cursor < row.id
    → next_socket_message i cursor t ≡ some (message_of none row)
first_next i cursor t row q e h =
    next_of i cursor t (some row)
      (next_of_queue i cursor t ∙ ap (find (λ r. ltb cursor r.id)) e ∙ ground arith)

empty_already : (i : Text) (t : Tables) → queue i t ≡ [] → t ≡ emptied i t
empty_already i t e =
    ap (λ rows. record t { outbox = rows }) (sym (delete-unselected (for_socket i) t.outbox e))

delete_first :
    (row : OutboxRow) (q : List OutboxRow)
    → Above row.id q
    → delete (λ r. r.id == row.id) (row ∷ q) ≡ q
delete_first row q h = ground (arith, delete-Above row.id row.id q (omega arith) h)

-- The queue that is known, from its front.
drained :
    (n : ℕ) (i : Text) (cursor : ℕ) (t : Tables) (q : List OutboxRow)
    → queue i t ≡ q
    → Above cursor q
    → length q ≤ n
    → drain n i cursor t ≡ (map (message_of none) q, emptied i t)
unfolding drain
drained zero i cursor t [] e h k = ap (λ u. ([], u)) (empty_already i t e)
drained (suc n) i cursor t [] e h k =
    ap (take_next i (drain n i) t) (nothing_next i cursor t e)
    ∙ ap (λ u. ([], u)) (empty_already i t e)
drained (suc n) i cursor t (row ∷ q) e h k =
    ap (take_next i (drain n i) t) (first_next i cursor t row q e h.0)
    ∙ ap (λ x. (message_of none row ∷ x.0, x.1))
        (drained n i row.id (ack_socket_message i row.id t).1 q
            (queue-ack i row.id t ∙ ap (delete (λ r. r.id == row.id)) e ∙ delete_first row q h.1)
            h.1 (omega arith)
          ∙ ap (λ u. (map (message_of none) q, u)) (emptied-ack i row.id t))
drained zero i cursor t (row ∷ q) e h k = ground arith

queue-through :
    (i : Text) (cursor : ℕ) (t : Tables)
    → queue i (ack_socket_through i cursor t).1 ≡ select (λ r. ltb cursor r.id) (queue i t)
unfolding ack_socket_through is_socket_through
queue-through i cursor t =
    select-delete_both (for_socket i) (λ r. leb r.id cursor) t.outbox
    ∙ delete_through cursor (queue i t)

emptied-through :
    (i : Text) (cursor : ℕ) (t : Tables) → emptied i (ack_socket_through i cursor t).1 ≡ emptied i t
unfolding ack_socket_through is_socket_through
emptied-through i cursor t =
    ap (λ rows. record t { outbox = rows })
      (delete-delete_both (for_socket i) (λ r. leb r.id cursor) t.outbox)

-- After an attach with a cursor, which acknowledges what lies at or below it, a client that asks for
-- the next message and acknowledges it, again and again and as often as its queue is long or more,
-- gets each message of the queue above the cursor once and in the order they were queued, and
-- nothing else; then its queue is empty, and no other row was touched. The ids have to rise, as they
-- do in well-formed tables.
pub drain_all :
    (n : ℕ) (i : Text) (cursor : ℕ) (t : Tables)
    → WellFormed t
    → length (select (λ r. ltb cursor r.id) (queue i t)) ≤ n
    → drain n i cursor (ack_socket_through i cursor t).1
      ≡ (map (message_of none) (select (λ r. ltb cursor r.id) (queue i t)), emptied i t)
drain_all n i cursor t v h =
    drained n i cursor (ack_socket_through i cursor t).1 (select (λ r. ltb cursor r.id) (queue i t))
      (queue-through i cursor t)
      (select_beyond cursor 0 (queue i t) (
        Above-select (for_socket i) 0 t.outbox
          (Rising-Above 0 t.outbox_seq t.outbox v.outbox.rising)))
      h
    ∙ ap (λ u. (map (message_of none) (select (λ r. ltb cursor r.id) (queue i t)), u))
        (emptied-through i cursor t)
