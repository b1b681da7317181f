-- ===== src/Db/AckOrder.antt =====
-- crates/bridge/src/db.rs: noting an id puts it first in the history of its app, and cuts that off.
use pushcompat.Prelude.{
  ℕ, zero, suc, ◌≤◌, ◌≡◌, refl, sym, ap, ◌∙◌, inl, inr, List, [], ◌∷◌, Bool, true, Text, ◌=?◌,
  =?_refl, select, take, any, length, map, if◌then◌else◌, Bool-cases, arith,
}
use pushcompat.Db.Tables.{AckedMessage}
use pushcompat.Db.Acks.{of_app, is_ack, keep_recent, with_ack, note_ack, max_ack_history}
use pushcompat.Db.AckBounds.{acks_of, keep_recent-short}

module _ {ℓ} {A : Type ℓ} where
  pub take-map {κ} :
      {B : Type κ} (f : A → B) (n : ℕ) (xs : List A) → take n (map f xs) ≡ map f (take n xs)
  take-map f zero xs = refl
  take-map f (suc n) [] = refl
  take-map f (suc n) (x ∷ xs) = ap (◌∷◌ (f x)) (take-map f n xs)

  pub select-keep_recent :
      (p : A → Bool) (n : ℕ) (xs : List A) → select p (keep_recent p n xs) ≡ take n (select p xs)
  unfolding keep_recent
  select-keep_recent p zero [] = refl
  select-keep_recent p (suc n) [] = refl
  select-keep_recent p zero (x ∷ xs) = ground (arith, select-keep_recent p zero xs)
  select-keep_recent p (suc n) (x ∷ xs) = elim (Bool-cases (p x)) [
    | inl e ↦ rw (e, keep_recent) (ap (◌∷◌ x) (select-keep_recent p n xs))
    | inr e ↦ rw (e, keep_recent) (select-keep_recent p (suc n) xs)
  ]

-- The ids of an app, newest first.
abbrev pub ids_of : Text → Text → List AckedMessage → List Text
ids_of i a rows = map (λ row. row.persistent_id) (acks_of i a rows)

pub any-ids_of :
    (i a pid : Text) (rows : List AckedMessage)
    → any (λ j. j =? pid) (ids_of i a rows) ≡ any (is_ack i a pid) rows
unfolding is_ack of_app
any-ids_of i a pid [] = refl
any-ids_of i a pid (row ∷ rows) = ground (arith, any-ids_of i a pid rows)

pub length-ids_of :
    (i a : Text) (rows : List AckedMessage) → length (ids_of i a rows) ≡ length (acks_of i a rows)
length-ids_of i a rows = length-map (acks_of i a rows)
  where
    length-map :
        (xs : List AckedMessage)
        → length (map (λ (row : AckedMessage). row.persistent_id) xs) ≡ length xs
    length-map [] = refl
    length-map (x ∷ xs) = ap suc (length-map xs)

-- A known id stays where it is; a new one comes first, and the history is cut to 500.
pub ids_of-note_ack :
    (i a pid : Text) (rows : List AckedMessage)
    → length (acks_of i a rows) ≤ max_ack_history
    → ids_of i a (note_ack i a pid rows) ≡ (
        if any (is_ack i a pid) rows
        then ids_of i a rows
        else take max_ack_history (pid ∷ ids_of i a rows))
unfolding note_ack with_ack
ids_of-note_ack i a pid rows h = elim (Bool-cases (any (is_ack i a pid) rows)) [
  | inl e ↦ rw e (ap (ids_of i a) (keep_recent-short (of_app i a) max_ack_history rows h))
  | inr e ↦ rw e (
      ap (map (λ row. row.persistent_id))
        (select-keep_recent (of_app i a) max_ack_history (row ∷ rows))
      ∙ sym (take-map (λ r. r.persistent_id) max_ack_history (acks_of i a (row ∷ rows)))
      ∙ ap
          (λ b.
            take max_ack_history
              (map (λ r. r.persistent_id) (if b then row ∷ acks_of i a rows else acks_of i a rows)))
          own)
]
  where
    row : AckedMessage
    row = record { install_id = i; app_id = a; persistent_id = pid }

    own : of_app i a row ≡ true
    own = unfold of_app in ground (arith, =?_refl i, =?_refl a)
