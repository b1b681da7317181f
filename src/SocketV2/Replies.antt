-- ===== src/SocketV2/Replies.antt =====
-- crates/bridge/src/socket_v2.rs: what an attach and an acknowledgement give back, and the state
-- that goes with each answer.
use pushcompat.Prelude.{
  ℕ, ◌≡◌, refl, ap, ◌∙◌, List, Option, none, some, Bool, true, false, Text, =?_refl, ==_iff, lookup,
  lookup-insert, Bool-cases, Option-cases, inl, inr, arith,
}
use pushcompat.Prelude.Int.{ℤ, pos}
use pushcompat.Exec.{Outcome, ok, failed, after, ◌>>◌, modify}
use pushcompat.Crypto.{Crypto, CryptoLaws}
use pushcompat.Types.Cursor.{clamp}
use pushcompat.Db.Installations.{installation_secret, touch_installation}
use pushcompat.Db.Outbox.{ack_socket_message, ack_socket_through, max_outbox_id}
use pushcompat.SocketV2.Crypt.{attach_proof, verify_attach_proof, derive_payload_key}
use pushcompat.SocketV2.Connection.{
  AttachmentState, ready, awaiting_ack, Attachment, World, query, execute, set_state, attach_hub,
  acknowledge_id, acknowledge, is_awaiting, attach_verified, attach_secret, attach,
}
use pushcompat.SocketV2.InOrder.{call_cases, acked_with}
use pushcompat.SocketV2.Rounds.{keyed, touched_then, through_then}

-- The proof is the one that the installation's secret makes for this connection's nonce.
abbrev pub Proved : Crypto → Text → Text → World → Type 0
Proved c i proof w =
    (secret : Text) × (installation_secret i w.tables ≡ some secret)
    × (c.base64_decode proof ≡ some (attach_proof c secret w.connection.nonce i))

-- An attach that succeeds was proved; one that is refused changes nothing; one that fails adds no
-- attachment.
abbrev pub AttachReply : Crypto → Text → Text → World → Outcome Bool × World → Type 0
AttachReply c i proof w (ok true, u) = Proved c i proof w
AttachReply c i proof w (ok false, u) =
    (u.connection ≡ w.connection) × (u.tables ≡ w.tables) × (u.hub ≡ w.hub)
AttachReply c i proof w (failed, u) = u.connection ≡ w.connection

module _ (c : Crypto) (i proof secret : Text) (w : World) (p : Proved c i proof w) where
  keyed-AttachReply :
      (cursor : ℕ) (u : World)
      → u.connection ≡ w.connection
      → AttachReply c i proof w (keyed c i secret cursor u)
  keyed-AttachReply cursor u e = elim (Option-cases (derive_payload_key c secret)) [
    | inl n ↦ rw (n, keyed) e
    | inr (key, n) ↦ rw (n, keyed) p
  ]

  attach_verified-AttachReply :
      (requested : ℤ) (u : World)
      → u.connection ≡ w.connection
      → AttachReply c i proof w (attach_verified c i secret requested u)
  unfolding attach_verified
  attach_verified-AttachReply requested u e =
      call_cases
        (λ x. AttachReply c i proof w (after (λ m. through_then c i secret (clamp requested m)) x))
        (query max_outbox_id) u (λ fs. e)
        (λ fs.
          let cursor = clamp requested (max_outbox_id u.tables) in
          call_cases (λ x. AttachReply c i proof w (after (λ _. touched_then c i secret cursor) x))
            (ack_socket_through i cursor) (record u { faults = fs }) (λ gs. e)
            (λ gs.
              let t = (ack_socket_through i cursor u.tables).1 in
              call_cases
                (λ x.
                  AttachReply c i proof w
                    (after (λ _. modify (attach_hub i) >> keyed c i secret cursor) x))
                (execute (touch_installation i)) (record u { tables = t; faults = gs }) (λ hs. e)
                (λ hs.
                  keyed-AttachReply cursor
                    (attach_hub i (record u { tables = touch_installation i t; faults = hs })) e)))

proof_decoded :
    (c : Crypto) (laws : CryptoLaws c) (secret nonce i proof : Text)
    → verify_attach_proof c secret nonce i proof ≡ true
    → c.base64_decode proof ≡ some (attach_proof c secret nonce i)
unfolding verify_attach_proof
proof_decoded c laws secret nonce i proof e = elim (Option-cases (c.base64_decode proof)) [
  | inl n ↦ ground (arith, e, n)
  | inr (given, n) ↦ ground (arith, e, n, laws.ct_eq_iff (attach_proof c secret nonce i) given)
]

attach_secret-AttachReply :
    (c : Crypto) (laws : CryptoLaws c) (i proof : Text) (requested : ℤ) (secret : Option Text)
    (fs : List Bool) (w : World)
    → installation_secret i w.tables ≡ secret
    → AttachReply c i proof w (attach_secret c i proof requested secret (record w { faults = fs }))
unfolding attach_secret
attach_secret-AttachReply c laws i proof requested none fs w e = (refl, refl, refl)
attach_secret-AttachReply c laws i proof requested (some secret) fs w e =
    elim (Bool-cases (verify_attach_proof c secret w.connection.nonce i proof)) [
      | inl m ↦
          rw (m, attach_secret)
            (attach_verified-AttachReply c i proof secret w
              (secret, e, proof_decoded c laws secret w.connection.nonce i proof m) requested
              (record w { faults = fs }) refl)
      | inr m ↦ rw (m, attach_secret) (refl, refl, refl)
    ]

-- An attach succeeds only with a proof made of the installation's secret for this connection's
-- nonce. One that is refused changes neither the connection nor the database nor the hub, and one
-- that fails leaves the attachments as they were.
pub attach-AttachReply :
    (c : Crypto) (laws : CryptoLaws c) (i proof : Text) (requested : ℤ) (w : World)
    → AttachReply c i proof w (attach c i proof requested w)
unfolding attach
attach-AttachReply c laws i proof requested w =
    call_cases (λ x. AttachReply c i proof w (after (attach_secret c i proof requested) x))
      (query (installation_secret i)) w (λ fs. refl)
      (λ fs.
        attach_secret-AttachReply c laws i proof requested (installation_secret i w.tables) fs w
          refl)

-- An acknowledgement that is taken was awaited: the message is gone, and the attachment is ready
-- behind it. One that is not taken leaves the connection as it was, and one that fails also the
-- tables.
abbrev pub AckReply : Text → ℕ → World → Outcome Bool × World → Type 0
AckReply i id w (ok true, u) =
    (a : Attachment) × (lookup i w.connection.attachments ≡ some a)
    × (a.state ≡ awaiting_ack id)
    × (lookup i u.connection.attachments ≡ some (record a { state = ready id }))
    × (u.tables ≡ (ack_socket_message i id w.tables).1)
AckReply i id w (ok false, u) = u.connection ≡ w.connection
AckReply i id w (failed, u) = (u.connection ≡ w.connection) × (u.tables ≡ w.tables)

awaiting : (s : AttachmentState) (id : ℕ) → is_awaiting s id ≡ true → s ≡ awaiting_ack id
awaiting (ready cursor) id e = ground arith
awaiting (awaiting_ack expected) id e = ap awaiting_ack ((==_iff expected id).0 e)

lookup-set_state :
    (i : Text) (s : AttachmentState) (a : Attachment) (w : World)
    → lookup i w.connection.attachments ≡ some a
    → (lookup i (set_state i s w).connection.attachments ≡ some (record a { state = s }))
      × ((set_state i s w).tables ≡ w.tables)
unfolding set_state
lookup-set_state i s a w e =
    rw (e, set_state)
      (
        lookup-insert i i (record a { state = s }) w.connection.attachments ∙ rw (=?_refl i) refl,
        refl,
      )

acked-AckReply :
    (i : Text) (id : ℕ) (a : Attachment) (fs : List Bool) (w : World)
    → lookup i w.connection.attachments ≡ some a
    → a.state ≡ awaiting_ack id
    → let (deleted, t) = ack_socket_message i id w.tables in
      AckReply i id w (acked_with i id deleted (record w { tables = t; faults = fs }))
acked-AckReply i id a fs w e h = elim (Bool-cases (ack_socket_message i id w.tables).0) [
  | inl m ↦
      let (found, same) =
        lookup-set_state i (ready id) a
          (record w { tables = (ack_socket_message i id w.tables).1; faults = fs }) e in
      rw m (a, e, h, found, same)
  | inr m ↦ rw m refl
]

-- An acknowledgement is taken only for the id that is awaited. Then the message is deleted, and
-- the attachment is ready behind it. One that is not taken leaves the attachments as they were,
-- and one that fails leaves the tables as well.
pub acknowledge-AckReply :
    (i : Text) (id : ℕ) (w : World) → AckReply i id w (acknowledge i (pos id) w)
unfolding acknowledge acknowledge_id
acknowledge-AckReply i id w = elim (Option-cases (lookup i w.connection.attachments)) [
  | inl e ↦ rw (e, acknowledge, acknowledge_id) refl
  | inr (a, e) ↦ elim (Bool-cases (is_awaiting a.state id)) [
    | inl m ↦
        rw (e, acknowledge, acknowledge_id, m)
          (call_cases (λ x. AckReply i id w (after (acked_with i id) x)) (ack_socket_message i id) w
            (λ fs. (refl, refl)) (λ fs. acked-AckReply i id a fs w e (awaiting a.state id m)))
    | inr m ↦ rw (e, acknowledge, acknowledge_id, m) refl
  ]
]
