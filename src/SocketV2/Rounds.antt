-- ===== src/SocketV2/Rounds.antt =====
-- crates/bridge/src/socket_v2.rs: an attach, the sending of what is pending, and the whole loop
-- between the calls of other tasks.
use pushcompat.Prelude.{
  ℕ, suc, ◌≤◌, ◌≡◌, subst, ltb, ◌&&◌, List, [], ◌∷◌, Option, none, some, Bool, true, Text, lookup,
  Bool-cases, Option-cases, inl, inr, arith, All-find,
}
use pushcompat.Prelude.Int.{ℤ}
use pushcompat.Exec.{Exec, after, ◌>>=◌, ◌>>◌, pure, fail, modify}
use pushcompat.Crypto.{Crypto}
use pushcompat.Types.Cursor.{clamp}
use pushcompat.Db.Tables.{Tables, OutboxRow}
use pushcompat.Db.Installations.{installation_secret, touch_installation}
use pushcompat.Db.Outbox.{
  OutboxMessage, for_socket, next_socket_row, next_socket_message, ack_socket_through,
  max_outbox_id,
}
use pushcompat.Db.Calls.{ack_through, touch, step}
use pushcompat.Db.Invariant.History.{WellFormed}
use pushcompat.SocketV2.Crypt.{
  ProtectedPayload, verify_attach_proof, derive_payload_key, encrypt_message_with_nonce,
}
use pushcompat.SocketV2.Connection.{
  AttachmentState, ready, awaiting_ack, Attachment, World, ServerFrame, message, call, query,
  execute, set_attachment, set_state, attach_hub, attach_verified, attach_secret, attach,
  pending_message, pending_state, pending_for,
}
use pushcompat.SocketV2.Cursor.{floor, step-Reached}
use pushcompat.SocketV2.Order.{
  next_socket_row-least, Rising-Issued, Issued, max_id-Issued, clamp-le, ack_through_above,
  next_above,
}
use pushcompat.SocketV2.InOrder.{
  ReachedIn, Sound, call_cases, faults-Sound, step-Sound, set_state-Sound, set_attachment-Sound,
}

-- What an attach deletes is at most what was issued.
through-Reached :
    (i : Text) (cursor : ℕ) (t : Tables)
    → cursor ≤ t.outbox_seq
    → ReachedIn i (suc cursor) (ack_socket_through i cursor t).1
unfolding ack_socket_through
through-Reached i cursor t h = record {
  above = ack_through_above i cursor t.outbox;
  issued = omega arith;
}

max_outbox_id_bounded : (t : Tables) → WellFormed t → max_outbox_id t ≤ t.outbox_seq
unfolding max_outbox_id
max_outbox_id_bounded t v =
    max_id-Issued t.outbox_seq t.outbox (Rising-Issued 0 t.outbox_seq t.outbox v.outbox.rising)

clamped :
    (requested : ℤ) (t : Tables) → WellFormed t → clamp requested (max_outbox_id t) ≤ t.outbox_seq
clamped requested t v =
    omega (arith, clamp-le requested (max_outbox_id t), max_outbox_id_bounded t v)

module _ (c : Crypto) (i secret : Text) where
  abbrev pub keyed : ℕ → Exec World Bool
  keyed cursor = elim (derive_payload_key c secret) [
    | none ↦ fail
    | some key ↦ (do
      modify (set_attachment i (record { state = ready cursor; key = key }))
      pure true)
  ]

  abbrev pub touched_then : ℕ → Exec World Bool
  touched_then cursor = do
    call (execute (touch_installation i))
    modify (attach_hub i)
    keyed cursor

  abbrev pub through_then : ℕ → Exec World Bool
  through_then cursor = do _ ← call (ack_socket_through i cursor); touched_then cursor

  keyed-Sound :
      (cursor : ℕ) (w : World)
      → ReachedIn i (suc cursor) w.tables
      → Sound w
      → Sound (keyed cursor w).1
  keyed-Sound cursor w r v = elim (Option-cases (derive_payload_key c secret)) [
    | inl e ↦ rw (e, keyed) v
    | inr (key, e) ↦
        rw (e, keyed) (set_attachment-Sound i (record { state = ready cursor; key = key }) w r v)
  ]

  hub-Sound : (w : World) → Sound w → Sound (attach_hub i w)
  hub-Sound w v = record { tables = v.tables; reached = v.reached }

  touched-Sound :
      (cursor : ℕ) (w : World)
      → ReachedIn i (suc cursor) w.tables
      → Sound w
      → Sound (touched_then cursor w).1
  unfolding step
  touched-Sound cursor w r v =
      call_cases (λ x. Sound (after (λ _. modify (attach_hub i) >> keyed cursor) x).1)
        (execute (touch_installation i)) w (λ fs. faults-Sound fs w v)
        (λ fs.
          let u = record w { tables = touch_installation i w.tables; faults = fs } in
          keyed-Sound cursor (attach_hub i u) (step-Reached (touch i) i (suc cursor) w.tables r)
            (hub-Sound u (step-Sound (touch i) fs w v)))

  through-Sound :
      (cursor : ℕ) (w : World)
      → cursor ≤ w.tables.outbox_seq
      → Sound w
      → Sound (through_then cursor w).1
  unfolding step
  through-Sound cursor w h v =
      call_cases (λ x. Sound (after (λ _. touched_then cursor) x).1) (ack_socket_through i cursor) w
        (λ fs. faults-Sound fs w v)
        (λ fs.
          touched-Sound cursor
            (record w { tables = (ack_socket_through i cursor w.tables).1; faults = fs })
            (through-Reached i cursor w.tables h) (step-Sound (ack_through i cursor) fs w v))

  attach_verified-Sound :
      (requested : ℤ) (w : World) → Sound w → Sound (attach_verified c i secret requested w).1
  unfolding attach_verified
  attach_verified-Sound requested w v =
      call_cases (λ x. Sound (after (λ m. through_then (clamp requested m)) x).1)
        (query max_outbox_id) w (λ fs. faults-Sound fs w v)
        (λ fs.
          through-Sound (clamp requested (max_outbox_id w.tables)) (record w { faults = fs })
            (clamped requested w.tables v.tables) (faults-Sound fs w v))

attach_secret-Sound :
    (c : Crypto) (i proof : Text) (requested : ℤ) (secret : Option Text) (w : World)
    → Sound w
    → Sound (attach_secret c i proof requested secret w).1
unfolding attach_secret
attach_secret-Sound c i proof requested none w v = v
attach_secret-Sound c i proof requested (some secret) w v =
    elim (Bool-cases (verify_attach_proof c secret w.connection.nonce i proof)) [
      | inl e ↦ rw (e, attach_secret) (attach_verified-Sound c i secret requested w v)
      | inr e ↦ rw (e, attach_secret) v
    ]

pub attach-Sound :
    (c : Crypto) (i proof : Text) (requested : ℤ) (w : World)
    → Sound w
    → Sound (attach c i proof requested w).1
unfolding attach
attach-Sound c i proof requested w v =
    call_cases (λ x. Sound (after (attach_secret c i proof requested) x).1)
      (query (installation_secret i)) w (λ fs. faults-Sound fs w v)
      (λ fs.
        attach_secret-Sound c i proof requested (installation_secret i w.tables)
          (record w { faults = fs }) (faults-Sound fs w v))

abbrev is_next : Text → ℕ → OutboxRow → Bool
is_next i cursor row = for_socket i row && ltb cursor row.id

next-Reached :
    (i : Text) (cursor : ℕ) (t : Tables) (next : OutboxMessage)
    → WellFormed t
    → next_socket_message i cursor t ≡ some next
    → ReachedIn i (suc cursor) t
    → ReachedIn i next.id t
unfolding next_socket_message
next-Reached i cursor t next v e r = elim (Option-cases (next_socket_row i cursor t.outbox)) [
  | inl n ↦ cc
  | inr (row, n) ↦
      let same : row.id ≡ next.id = ground (arith, e, n) in
      let h =
        All-find (Issued t.outbox_seq) (is_next i cursor) t.outbox row
          (Rising-Issued 0 t.outbox_seq t.outbox v.outbox.rising) (unfold next_socket_row in n) in
      let least = next_socket_row-least i cursor t row v n in
      subst (λ k. ReachedIn i k t) same
        (record {
          above = next_above i cursor row.id t.outbox r.above least.2;
          issued = omega (arith, h);
        })
]

module _ (c : Crypto) (to_vec : ProtectedPayload → Option Text) where
  module _ (nonce i : Text) where
    abbrev sealed : OutboxMessage → Option Text → Exec World (List ServerFrame)
    sealed next none = fail
    sealed next (some ciphertext) = do
      modify (set_state i (awaiting_ack next.id))
      pure (message i next.id ciphertext ∷ [])

    abbrev sent : Attachment → Option OutboxMessage → Exec World (List ServerFrame)
    sent attachment none = pure []
    sent attachment (some next) =
        sealed next (encrypt_message_with_nonce c to_vec i next attachment.key nonce)

    sealed-Sound :
        (next : OutboxMessage) (ciphertext : Option Text) (w : World)
        → ReachedIn i next.id w.tables
        → Sound w
        → Sound (sealed next ciphertext w).1
    sealed-Sound next none w r v = v
    sealed-Sound next (some ciphertext) w r v = set_state-Sound i (awaiting_ack next.id) w r v

    pending_message-Sound :
        (a : Attachment) (cursor : ℕ) (w : World)
        → ReachedIn i (suc cursor) w.tables
        → Sound w
        → Sound (pending_message c to_vec nonce i a cursor w).1
    unfolding pending_message
    pending_message-Sound a cursor w r v =
        call_cases (λ x. Sound (after (sent a) x).1) (query (next_socket_message i cursor)) w
          (λ fs. faults-Sound fs w v)
          (λ fs. elim (Option-cases (next_socket_message i cursor w.tables)) [
            | inl e ↦ rw e (faults-Sound fs w v)
            | inr (next, e) ↦ rw e (
                sealed-Sound next (encrypt_message_with_nonce c to_vec i next a.key nonce)
                  (record w { faults = fs }) (next-Reached i cursor w.tables next v.tables e r)
                  (faults-Sound fs w v))
          ])

    pending_state-Sound :
        (a : Attachment) (s : AttachmentState) (w : World)
        → ReachedIn i (floor s) w.tables
        → Sound w
        → Sound (pending_state c to_vec nonce i a s w).1
    pending_state-Sound a (ready cursor) w r v = pending_message-Sound a cursor w r v
    pending_state-Sound a (awaiting_ack id) w r v = v

    pub pending_for-Sound : (w : World) → Sound w → Sound (pending_for c to_vec nonce i w).1
    unfolding pending_for
    pending_for-Sound w v = elim (Option-cases (lookup i w.connection.attachments)) [
      | inl e ↦ rw (e, pending_for) v
      | inr (a, e) ↦ rw (e, pending_for) (pending_state-Sound a a.state w (v.reached i a e) v)
    ]
