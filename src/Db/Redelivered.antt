-- ===== src/Db/Redelivered.antt =====
-- crates/bridge/src/db.rs: a message that Google delivers again, some while after.
use pushcompat.Prelude.{
  ℕ, zero, suc, ◌+◌, ◌≤◌, ◌<◌, ◌≡◌, refl, sym, ap, subst, ◌∙◌, inl, inr, List, [], ◌∷◌, Option,
  none, some, Bool, true, false, Text, ◌=?◌, =?_refl, =?_iff, any, take, select, length, Bool-cases,
  arith,
}
use pushcompat.Types.Transport.{Transport}
use pushcompat.Db.Tables.{Tables}
use pushcompat.Db.Acks.{is_ack, max_ack_history}
use pushcompat.Db.Enqueue.{skipped, is_acked, insert_fcm, remember, enqueue_fcm_message}
use pushcompat.Db.Invariant.Outbox.{enqueue_fcm_cases}
use pushcompat.Db.AckBounds.{
  acks_of, AcksBounded, same_acks-AcksBounded, insert_acks, enqueue_fcm-AcksBounded,
  step-AcksBounded, run-AcksBounded,
}
use pushcompat.Db.AckOrder.{ids_of, any-ids_of, ids_of-note_ack}
use pushcompat.Db.Calls.{Call, forget, prune, enqueue_fcm, step, run}
use pushcompat.Db.Untouched.{forgets, is_message, touches, step_other}
use pushcompat.Db.Insertion.{is_new, enqueue_fcm_total}
use pushcompat.Db.Redelivery.{acked_skipped}

module _ {ℓ} {A : Type ℓ} (p : A → Bool) where
  any-take-suc : (n : ℕ) (xs : List A) → any p (take n xs) ≡ true → any p (take (suc n) xs) ≡ true
  any-take-suc zero xs h = cc
  any-take-suc (suc n) [] h = cc
  any-take-suc (suc n) (x ∷ xs) h = elim (Bool-cases (p x)) [
    | inl e ↦ rw e refl
    | inr e ↦ rw e (any-take-suc n xs (ground arith))
  ]

  any-take-any : (n : ℕ) (xs : List A) → any p (take n xs) ≡ true → any p xs ≡ true
  any-take-any zero xs h = cc
  any-take-any (suc n) [] h = cc
  any-take-any (suc n) (x ∷ xs) h = elim (Bool-cases (p x)) [
    | inl e ↦ rw e refl
    | inr e ↦ rw e (any-take-any n xs (ground arith))
  ]

  any-take-take :
      (n m : ℕ) (xs : List A) → n ≤ m → any p (take n xs) ≡ true → any p (take n (take m xs)) ≡ true
  any-take-take zero m xs h e = cc
  any-take-take (suc n) zero xs h e = ground arith
  any-take-take (suc n) (suc m) [] h e = cc
  any-take-take (suc n) (suc m) (x ∷ xs) h e = elim (Bool-cases (p x)) [
    | inl k ↦ rw k refl
    | inr k ↦ rw k (any-take-take n m xs (omega arith) (ground arith))
  ]

  any-take-push :
      (n m : ℕ) (x : A) (xs : List A)
      → suc n ≤ suc m
      → any p (take n xs) ≡ true
      → any p (take (suc n) (take (suc m) (x ∷ xs))) ≡ true
  any-take-push n m x xs h e = ground (arith, any-take-take n m xs (omega arith) e)

module _ (i a pid : Text) where
  -- The id is one of the `n` newest of the app.
  abbrev Recent : ℕ → Tables → Type 0
  Recent n t = any (λ q. q =? pid) (take n (ids_of i a t.acked_messages)) ≡ true

  Recent-is_acked : (n : ℕ) (t : Tables) → Recent n t → is_acked i a (some pid) t ≡ true
  unfolding is_acked
  Recent-is_acked n t r =
      sym (any-ids_of i a pid t.acked_messages)
      ∙ any-take-any (λ q. q =? pid) n (ids_of i a t.acked_messages) r

  Recent-same :
      (n : ℕ) (t u : Tables)
      → acks_of i a u.acked_messages ≡ acks_of i a t.acked_messages
      → Recent n t
      → Recent n u
  Recent-same n t u e r = rw e r

  -- Another id puts it one place further back.
  Recent-remember :
      (n : ℕ) (t : Tables) (other : Option Text)
      → AcksBounded t
      → suc n ≤ max_ack_history
      → Recent n t
      → Recent (suc n) (remember i a other t)
  unfolding remember
  Recent-remember n t none b h r = any-take-suc (λ q. q =? pid) n (ids_of i a t.acked_messages) r
  Recent-remember n t (some other) b h r =
      rw (ids_of-note_ack i a other t.acked_messages (b i a))
        (elim (Bool-cases (any (is_ack i a other) t.acked_messages)) [
          | inl e ↦ rw e (any-take-suc (λ q. q =? pid) n (ids_of i a t.acked_messages) r)
          | inr e ↦
              rw e (any-take-push (λ q. q =? pid) n 499 other (ids_of i a t.acked_messages) h r)
        ])

  -- A new id is the newest.
  Recent-new :
      (t : Tables)
      → AcksBounded t
      → is_acked i a (some pid) t ≡ false
      → Recent 1 (remember i a (some pid) t)
  unfolding remember is_acked
  Recent-new t b e =
      rw (ids_of-note_ack i a pid t.acked_messages (b i a)) (rw e (ground (arith, =?_refl pid)))

  message-Recent :
      (j b : Text) (via : Transport) (other : Option Text) (body : Text) (t : Tables) (n : ℕ)
      → j ≡ i
      → b ≡ a
      → AcksBounded t
      → suc n ≤ max_ack_history
      → Recent n t
      → Recent (suc n) (enqueue_fcm_message j b via other body t).1
  message-Recent j b via other body t n p q h k r =
      subst (λ x. Recent (suc n) (enqueue_fcm_message x b via other body t).1) (sym p)
        (subst (λ y. Recent (suc n) (enqueue_fcm_message i y via other body t).1) (sym q)
          (enqueue_fcm_cases (Recent (suc n)) i a via other body t
            (any-take-suc (λ x. x =? pid) n (ids_of i a t.acked_messages) r)
            (Recent-remember n t other h k r)
            (Recent-remember n (insert_fcm i a via other body t) other
              (same_acks-AcksBounded t (insert_fcm i a via other body t)
                (insert_acks t i a via other body) h)
              k
              (Recent-same n t (insert_fcm i a via other body t)
                (ap (acks_of i a) (insert_acks t i a via other body)) r))))

  -- A message for the app puts the id at most one place further back.
  step-Recent :
      (c : Call) (t : Tables) (n : ℕ)
      → is_message i a c ≡ true
      → AcksBounded t
      → suc n ≤ max_ack_history
      → Recent n t
      → Recent (suc n) (step c t)
  unfolding step
  step-Recent (enqueue_fcm j b via other body) t n m h k r =
      message-Recent j b via other body t n (sym ((=?_iff i j).0 (ground arith)))
        (sym ((=?_iff a b).0 (ground arith))) h k r
  step-Recent _ t n m h k r = cc

  touches_iff :
      (c : Call) → is_message i a c ≡ false → forgets i a c ≡ false → touches i a c ≡ false
  touches_iff (enqueue_fcm j b via other body) m f = m
  touches_iff (forget j b) m f = f
  touches_iff (prune days) m f = f
  touches_iff _ m f = refl

  run-Recent :
      (cs : List Call) (t : Tables) (n : ℕ)
      → AcksBounded t
      → any (forgets i a) cs ≡ false
      → n + length (select (is_message i a) cs) ≤ max_ack_history
      → Recent n t
      → is_acked i a (some pid) (run cs t) ≡ true
  unfolding run
  run-Recent [] t n h f k r = Recent-is_acked n t r
  run-Recent (c ∷ cs) t n h f k r = elim (Bool-cases (is_message i a c)) [
    | inl m ↦
        run-Recent cs (step c t) (suc n) (step-AcksBounded c t h) (ground arith) (ground arith)
          (step-Recent c t n m h (ground arith) r)
    | inr m ↦
        run-Recent cs (step c t) n (step-AcksBounded c t h) (ground arith) (ground arith)
          (Recent-same n t (step c t) (step_other i a c t (touches_iff c m (ground arith))) r)
  ]

  unacked :
      (t u : Tables)
      → u.acked_messages ≡ t.acked_messages
      → is_acked i a (some pid) u ≡ is_acked i a (some pid) t
  unfolding is_acked
  unacked t u x = ap (any (is_ack i a pid)) x

  enqueue-Recent :
      (via : Transport) (body : Text) (t : Tables)
      → AcksBounded t
      → is_acked i a (some pid) t ≡ false
      → Recent 1 (enqueue_fcm_message i a via (some pid) body t).1
  enqueue-Recent via body t h e = elim (Bool-cases (is_new i a (some pid) body t)) [
    | inl k ↦
        let (id, f) = (enqueue_fcm_total i a via (some pid) body t).0 k in
        let u = insert_fcm i a via (some pid) body t in
        rw f (
          Recent-new u (same_acks-AcksBounded t u (insert_acks t i a via (some pid) body) h)
            (unacked t u (insert_acks t i a via (some pid) body) ∙ e))
    | inr k ↦ rw ((enqueue_fcm_total i a via (some pid) body t).1 k) (Recent-new t h e)
  ]

-- A message that is enqueued once more, after any history of other calls, over any transport and
-- with any payload, is skipped and changes nothing, where its id had not been acknowledged before the
-- first time, fewer than 500 messages for its app were enqueued in between, the app was not deleted
-- and nothing was pruned, and no app had more than 500 ids acknowledged.
pub redelivery_skipped :
    (i a pid : Text) (via again : Transport) (body other : Text) (t : Tables) (cs : List Call)
    → AcksBounded t
    → is_acked i a (some pid) t ≡ false
    → any (forgets i a) cs ≡ false
    → length (select (is_message i a) cs) < max_ack_history
    → let u = run cs (enqueue_fcm_message i a via (some pid) body t).1 in
      enqueue_fcm_message i a again (some pid) other u ≡ (skipped, u)
redelivery_skipped i a pid via again body other t cs h e f k =
    let first = (enqueue_fcm_message i a via (some pid) body t).1 in
    let bounded = enqueue_fcm-AcksBounded i a via (some pid) body t h in
    acked_skipped i a pid again other (run cs first) (run-AcksBounded cs first bounded) (
      run-Recent i a pid cs first 1 bounded f (omega arith) (enqueue-Recent i a pid via body t h e))
