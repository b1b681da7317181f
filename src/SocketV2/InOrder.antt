-- ===== src/SocketV2/InOrder.antt =====
-- crates/bridge/src/socket_v2.rs: what holds of the attachments of a connection under its methods
-- and under everything else that happens to the database, in any order.
use mathlib.Core.Option.{some-injective}
use pushcompat.Prelude.{
  ℕ, suc, ◌≡◌, subst, List, [], ◌∷◌, some, Bool, true, false, Text, ◌=?◌, =?_iff, if◌then◌else◌,
  lookup, lookup-insert, lookup-remove, Bool-cases, Option-cases, inl, inr, arith,
}
use pushcompat.Prelude.Int.{ℤ, pos, negsuc}
use pushcompat.Exec.{Outcome, ok, failed, Exec, after, ◌>>◌, pure, modify}
use pushcompat.Db.Tables.{Tables}
use pushcompat.Db.Outbox.{ack_socket_message}
use pushcompat.Db.Calls.{Call, ack, step}
use pushcompat.Db.Invariant.History.{WellFormed, step-WellFormed}
use pushcompat.SocketV2.Connection.{
  AttachmentState, ready, awaiting_ack, Attachment, World, call, call_with, set_attachment,
  set_state, detach, acknowledge_id, acknowledge, is_awaiting,
}
use pushcompat.SocketV2.Cursor.{floor, Reached, step-Reached}
use pushcompat.SocketV2.Order.{Rising-Issued, acked-Issued, ack_above}

abbrev pub ReachedIn : Text → ℕ → Tables → Type 0
ReachedIn i n t = Reached i n t.outbox t.outbox_seq

-- The tables keep their constraints, and of no installation attached here is there a message below
-- what its attachment has reached.
pub record Sound (w : World) : Type 0 where
  pub tables : WellFormed w.tables
  pub reached :
      (i : Text) (a : Attachment)
      → lookup i w.connection.attachments ≡ some a
      → ReachedIn i (floor a.state) w.tables

same_attachment :
    (i j : Text) (a b : Attachment) (t : Tables)
    → i ≡ j
    → some a ≡ some b
    → ReachedIn i (floor a.state) t
    → ReachedIn j (floor b.state) t
same_attachment i j a b t p q r =
    let eq : a ≡ b = some-injective a b q in
    subst (λ k. ReachedIn k (floor b.state) t) p
      (subst (λ (x : Attachment). ReachedIn i (floor x.state) t) eq r)

pub set_attachment-Sound :
    (i : Text) (a : Attachment) (w : World)
    → ReachedIn i (floor a.state) w.tables
    → Sound w
    → Sound (set_attachment i a w)
set_attachment-Sound i a w r v = record {
  tables = v.tables;
  reached = λ j b e. elim (Bool-cases (i =? j)) [
    | inl m ↦
        same_attachment i j a b w.tables ((=?_iff i j).0 m)
          (ground (arith, e, lookup-insert i j a w.connection.attachments)) r
    | inr m ↦ v.reached j b (ground (arith, lookup-insert i j a w.connection.attachments))
  ];
}

pub set_state-Sound :
    (i : Text) (s : AttachmentState) (w : World)
    → ReachedIn i (floor s) w.tables
    → Sound w
    → Sound (set_state i s w)
unfolding set_state
set_state-Sound i s w r v = elim (Option-cases (lookup i w.connection.attachments)) [
  | inl e ↦ rw (e, set_state) v
  | inr (a, e) ↦ rw (e, set_state) (set_attachment-Sound i (record a { state = s }) w r v)
]

pub detach-Sound : (i : Text) (w : World) → Sound w → Sound (detach i w).1
unfolding detach
detach-Sound i w v = elim (Option-cases (lookup i w.connection.attachments)) [
  | inl e ↦ rw (e, detach) v
  | inr (a, e) ↦
      rw (e, detach)
        (record {
          tables = v.tables;
          reached =
              λ j b k. v.reached j b (ground (arith, lookup-remove i j w.connection.attachments));
        })
]

-- The database is called by this connection or by another task.
pub step-Sound :
    (c : Call) (fs : List Bool) (w : World)
    → Sound w
    → Sound (record w { tables = step c w.tables; faults = fs })
step-Sound c fs w v = record {
  tables = step-WellFormed c w.tables v.tables;
  reached = λ i a e. step-Reached c i (floor a.state) w.tables (v.reached i a e);
}

pub faults-Sound : (fs : List Bool) (w : World) → Sound w → Sound (record w { faults = fs })
faults-Sound fs w v = record { tables = v.tables; reached = v.reached }

call_with_cases {ℓ} :
    {A : Type 0} (P : Outcome A × World → Type ℓ) (f : Tables → A × Tables) (w : World)
    (faults : List Bool)
    → ((fs : List Bool) → P (failed, record w { faults = fs }))
    → ((fs : List Bool) → P (ok (f w.tables).0, record w { tables = (f w.tables).1; faults = fs }))
    → P (call_with f w faults)
call_with_cases P f w [] bad good = good w.faults
call_with_cases P f w (true ∷ fs) bad good = bad fs
call_with_cases P f w (false ∷ fs) bad good = good fs

-- A statement fails and changes nothing, or it runs.
pub call_cases {ℓ} :
    {A : Type 0} (P : Outcome A × World → Type ℓ) (f : Tables → A × Tables) (w : World)
    → ((fs : List Bool) → P (failed, record w { faults = fs }))
    → ((fs : List Bool) → P (ok (f w.tables).0, record w { tables = (f w.tables).1; faults = fs }))
    → P (call f w)
unfolding call
call_cases P f w bad good = call_with_cases P f w w.faults bad good

awaited : (s : AttachmentState) (id : ℕ) → is_awaiting s id ≡ true → floor s ≡ id
awaited (ready cursor) id e = ground arith
awaited (awaiting_ack expected) id e = ground arith

-- The lowest message is acknowledged, and its id is what has been reached.
acked-Reached :
    (i : Text) (id : ℕ) (t : Tables)
    → WellFormed t
    → (ack_socket_message i id t).0 ≡ true
    → ReachedIn i id t
    → ReachedIn i (suc id) (ack_socket_message i id t).1
unfolding ack_socket_message
acked-Reached i id t v e r = record {
  above = ack_above i id t.outbox r.above;
  issued = omega (
    arith,
    acked-Issued i id t.outbox_seq t.outbox (Rising-Issued 0 t.outbox_seq t.outbox v.outbox.rising)
        e,
  );
}

abbrev pub acked_with : Text → ℕ → Bool → Exec World Bool
acked_with i id deleted =
    if deleted then (do modify (set_state i (ready id)); pure true) else pure false

ack_ok-Sound :
    (i : Text) (id : ℕ) (fs : List Bool) (w : World)
    → ReachedIn i id w.tables
    → Sound w
    → let (deleted, t) = ack_socket_message i id w.tables in
      Sound (acked_with i id deleted (record w { tables = t; faults = fs })).1
unfolding step
ack_ok-Sound i id fs w r v = elim (Bool-cases (ack_socket_message i id w.tables).0) [
  | inl e ↦ rw e (
      set_state-Sound i (ready id) _ (acked-Reached i id w.tables v.tables e r)
        (step-Sound (ack i id) fs w v))
  | inr e ↦ rw e (step-Sound (ack i id) fs w v)
]

acknowledge_id-Sound : (i : Text) (id : ℕ) (w : World) → Sound w → Sound (acknowledge_id i id w).1
unfolding acknowledge_id
acknowledge_id-Sound i id w v = elim (Option-cases (lookup i w.connection.attachments)) [
  | inl e ↦ rw (e, acknowledge_id) v
  | inr (a, e) ↦ elim (Bool-cases (is_awaiting a.state id)) [
    | inl m ↦
        rw (e, acknowledge_id, m)
          (call_cases (λ r. Sound (after (acked_with i id) r).1) (ack_socket_message i id) w
            (λ fs. faults-Sound fs w v)
            (λ fs.
              ack_ok-Sound i id fs w
                (subst (λ n. ReachedIn i n w.tables) (awaited a.state id m) (v.reached i a e)) v))
    | inr m ↦ rw (e, acknowledge_id, m) v
  ]
]

pub acknowledge-Sound : (i : Text) (id : ℤ) (w : World) → Sound w → Sound (acknowledge i id w).1
unfolding acknowledge
acknowledge-Sound i (pos id) w v = acknowledge_id-Sound i id w v
acknowledge-Sound i (negsuc n) w v = v
