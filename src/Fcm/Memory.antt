-- ===== src/Fcm/Memory.antt =====
-- crates/bridge/src/fcm.rs: the ids that a listener holds in memory are those that the database
-- would give it back after a restart.
use pushcompat.Prelude.{
  take-all, ℕ, zero, suc, ◌≤◌, ◌≡◌, refl, sym, ap, subst, ◌∙◌, ◌≢◌, inl, inr, List, [], ◌∷◌, ◌++◌,
  Option, none, some, Bool, true, false, Text, ◌=?◌, any, any-reverse, take, ltb, length,
  length-append, map, reverse, if◌then◌else◌, Bool-cases, arith,
}
use mathlib.Core.List.{reverse-cons}
use pushcompat.Types.Transport.{Transport}
use pushcompat.Db.Tables.{Tables}
use pushcompat.Db.Acks.{note_ack, max_ack_history, recent_acks}
use pushcompat.Db.Enqueue.{Enqueued, queued, skipped, remember, insert_fcm, enqueue_fcm_message}
use pushcompat.Db.AckBounds.{
  acks_of, AcksBounded, insert_acks, same_acks-AcksBounded, remember-AcksBounded,
}
use pushcompat.Db.AckOrder.{ids_of, any-ids_of, length-ids_of, ids_of-note_ack}
use pushcompat.Db.Insertion.{is_new, enqueue_fcm_message_if}
use pushcompat.Fcm.Replay.{remove_first, push_id, restored_ids}

module _ {ℓ} {A : Type ℓ} where
  pub length-reverse : (xs : List A) → length (reverse xs) ≡ length xs
  length-reverse [] = refl
  length-reverse (x ∷ xs) =
      ap length (reverse-cons x xs)
      ∙ length-append (reverse xs) (x ∷ [])
      ∙ omega (arith, length-reverse xs)

remove_first-append :
    (xs : List Text) (y : Text)
    → length xs ≢ 0
    → remove_first (xs ++ y ∷ []) ≡ remove_first xs ++ y ∷ []
remove_first-append [] y h = ground arith
remove_first-append (x ∷ xs) y h = refl

-- The oldest of a list that has one id too many.
remove_first-reverse :
    (n : ℕ) (xs : List Text) → length xs ≡ suc n → remove_first (reverse xs) ≡ reverse (take n xs)
remove_first-reverse zero (x ∷ []) h = refl
remove_first-reverse (suc n) (x ∷ xs) h =
    ap remove_first (reverse-cons x xs)
    ∙ remove_first-append (reverse xs) x (omega (arith, length-reverse xs))
    ∙ ap (λ ys. ys ++ x ∷ []) (remove_first-reverse n xs (omega arith))
    ∙ sym (reverse-cons x (take n xs))
remove_first-reverse n [] h = ground arith
remove_first-reverse zero (x ∷ y ∷ xs) h = ground arith

trim_newest :
    (n : ℕ) (xs : List Text)
    → length xs ≤ suc n
    → (if ltb n (length (reverse xs)) then remove_first (reverse xs) else reverse xs)
      ≡ reverse (take n xs)
trim_newest n xs h = elim (Bool-cases (ltb n (length (reverse xs)))) [
  | inl e ↦ rw e (remove_first-reverse n xs (ground (arith, length-reverse xs)))
  | inr e ↦ rw e (ap reverse (sym (take-all n xs (ground (arith, length-reverse xs)))))
]

pushed_newest :
    (pid : Text) (xs : List Text)
    → length xs ≤ max_ack_history
    → push_id (some pid) (reverse xs)
      ≡ reverse (if any (λ j. j =? pid) xs then xs else take max_ack_history (pid ∷ xs))
unfolding push_id
pushed_newest pid xs h = elim (Bool-cases (any (λ j. j =? pid) xs)) [
  | inl e ↦ rw (any-reverse (λ (j : Text). j =? pid) xs, e) refl
  | inr e ↦
      rw (any-reverse (λ (j : Text). j =? pid) xs, e)
        (rw (sym (reverse-cons pid xs)) (trim_newest max_ack_history (pid ∷ xs) (omega arith)))
]

restored_short :
    (i a : Text) (t : Tables)
    → AcksBounded t
    → restored_ids i a t ≡ reverse (ids_of i a t.acked_messages)
unfolding restored_ids recent_acks
restored_short i a t h = ap reverse (
    take-all max_ack_history (ids_of i a t.acked_messages)
      (omega (arith, length-ids_of i a t.acked_messages, h i a)))

-- Only the history of the app decides what is restored.
pub restored_same :
    (i a : Text) (t u : Tables)
    → acks_of i a u.acked_messages ≡ acks_of i a t.acked_messages
    → restored_ids i a u ≡ restored_ids i a t
unfolding restored_ids recent_acks
restored_same i a t u e =
    ap (λ rows. reverse (take max_ack_history (map (λ r. r.persistent_id) rows))) e

restored-remember :
    (i a pid : Text) (t : Tables)
    → AcksBounded t
    → restored_ids i a (remember i a (some pid) t)
      ≡ reverse (ids_of i a (note_ack i a pid t.acked_messages))
unfolding remember
restored-remember i a pid t h =
    restored_short i a (remember i a (some pid) t) (remember-AcksBounded i a (some pid) t h)

push_id-remember :
    (i a : Text) (pid : Option Text) (t : Tables)
    → AcksBounded t
    → push_id pid (restored_ids i a t) ≡ restored_ids i a (remember i a pid t)
push_id-remember i a none t h = unfold push_id remember in refl
push_id-remember i a (some pid) t h =
    ap (push_id (some pid)) (restored_short i a t h)
    ∙ pushed_newest pid (ids_of i a t.acked_messages)
        (omega (arith, length-ids_of i a t.acked_messages, h i a))
    ∙ ap
        (λ b. reverse (
          if b
          then ids_of i a t.acked_messages
          else take max_ack_history (pid ∷ ids_of i a t.acked_messages)))
        (any-ids_of i a pid t.acked_messages)
    ∙ ap reverse (sym (ids_of-note_ack i a pid t.acked_messages (h i a)))
    ∙ sym (restored-remember i a pid t h)

either {ℓ} : {A : Type ℓ} (P : A → Type 0) (b : Bool) (x y : A) → P x → P y → P (if b then x else y)
either P true x y p q = p
either P false x y p q = q

-- The list in memory follows the table: after a message is stored, noting its id gives the list
-- that a restart would read.
pub push_id-enqueue :
    (i a : Text) (via : Transport) (pid : Option Text) (body : Text) (t : Tables)
    → AcksBounded t
    → push_id pid (restored_ids i a t) ≡ restored_ids i a (enqueue_fcm_message i a via pid body t).1
push_id-enqueue i a via pid body t h =
    let (id, e) = enqueue_fcm_message_if i a via pid body t in
    let u = insert_fcm i a via pid body t in
    subst (λ x. push_id pid (restored_ids i a t) ≡ restored_ids i a x.1) (sym e)
      (either (λ (x : Enqueued × Tables). push_id pid (restored_ids i a t) ≡ restored_ids i a x.1)
        (is_new i a pid body t) (queued id, remember i a pid u) (skipped, remember i a pid t)
        (ap (push_id pid)
            (sym (restored_same i a t u (ap (acks_of i a) (insert_acks t i a via pid body))))
          ∙ push_id-remember i a pid u
              (same_acks-AcksBounded t u (insert_acks t i a via pid body) h))
        (push_id-remember i a pid t h))
