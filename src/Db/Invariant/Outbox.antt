-- ===== src/Db/Invariant/Outbox.antt =====
-- crates/bridge/src/db.rs: the ids of the outbox rise, up to the sequence number, and no two rows
-- share a persistent id.
use pushcompat.Prelude.{
  ℕ, suc, ◌+◌, ◌≤◌, ◌<◌, ◌≡◌, refl, List, [], ◌∷◌, ◌++◌, Option, none, some, Bool, false, not, ◌&&◌,
  Text, ◌==◌, any, delete, update, Bool-cases, arith, inl, inr, Distinct, Distinct-delete,
  Distinct-update, Distinct-append,
}
use pushcompat.Types.Transport.{Transport}
use pushcompat.Types.MessageKind.{MessageKind}
use pushcompat.Db.Tables.{Tables, OutboxRow}
use pushcompat.Db.Outbox.{defer_outbox_message, deferred}
use pushcompat.Db.Enqueue.{
  is_acked, is_empty, append_row, has_persistent_id, insert_fcm, enqueue_fcm_message,
  enqueue_unified_push_message, commit_insert, remember, inserted_id,
}

-- Every id is above `lo` and at most `hi`, and they rise.
abbrev pub Rising : ℕ → ℕ → List OutboxRow → Type 0
Rising lo hi [] = lo ≤ hi
Rising lo hi (row ∷ rows) = (lo < row.id) × Rising row.id hi rows

pub Rising-mono :
    (lo lo' hi : ℕ) (rows : List OutboxRow) → lo ≤ lo' → Rising lo' hi rows → Rising lo hi rows
Rising-mono lo lo' hi [] h r = omega arith
Rising-mono lo lo' hi (row ∷ rows) h r = (omega arith, r.1)

pub Rising-delete :
    (d : OutboxRow → Bool) (lo hi : ℕ) (rows : List OutboxRow)
    → Rising lo hi rows
    → Rising lo hi (delete d rows)
Rising-delete d lo hi [] r = r
Rising-delete d lo hi (row ∷ rows) (h, r) = elim (Bool-cases (d row)) [
  | inl e ↦
      rw e
        (Rising-mono lo row.id hi (delete d rows) (omega arith) (Rising-delete d row.id hi rows r))
  | inr e ↦ rw e (h, Rising-delete d row.id hi rows r)
]

pub Rising-update :
    (q : OutboxRow → Bool) (f : OutboxRow → OutboxRow) (lo hi : ℕ) (rows : List OutboxRow)
    → ((row : OutboxRow) → (f row).id ≡ row.id)
    → Rising lo hi rows
    → Rising lo hi (update q f rows)
Rising-update q f lo hi [] h r = r
Rising-update q f lo hi (row ∷ rows) h (k, r) = elim (Bool-cases (q row)) [
  | inl e ↦ rw (e, h row) (k, Rising-update q f row.id hi rows h r)
  | inr e ↦ rw e (k, Rising-update q f row.id hi rows h r)
]

-- The sequence number may run ahead of the rows.
pub Rising-skip : (lo hi : ℕ) (rows : List OutboxRow) → Rising lo hi rows → Rising lo (suc hi) rows
Rising-skip lo hi [] r = omega arith
Rising-skip lo hi (row ∷ rows) (h, r) = (h, Rising-skip row.id hi rows r)

pub Rising-append :
    (lo hi : ℕ) (rows : List OutboxRow) (row : OutboxRow)
    → row.id ≡ suc hi
    → Rising lo hi rows
    → Rising lo (suc hi) (rows ++ row ∷ [])
Rising-append lo hi [] row e r = (omega arith, omega arith)
Rising-append lo hi (x ∷ rows) row e (h, r) = (h, Rising-append x.id hi rows row e r)

-- The unique index `outbox_fcm_persistent_id`.
unfoldable pub same_message : OutboxRow → OutboxRow → Bool
unfolding has_persistent_id
same_message a b = elim b.persistent_id [
  | none ↦ false
  | some pid ↦ has_persistent_id b.install_id b.app_id pid a
]

pub record OutboxInv (t : Tables) : Type 0 where
  pub rising : Rising 0 t.outbox_seq t.outbox
  pub unique : Distinct same_message t.outbox

any-false {ℓ} : {A : Type ℓ} (xs : List A) → any (λ _. false) xs ≡ false
any-false [] = refl
any-false (x ∷ xs) = any-false xs

append_row-OutboxInv :
    (i a : Text) (k : MessageKind) (via : Transport) (c pid : Option Text) (body : Text)
    (t : Tables)
    → (any (λ row. elim pid [ none ↦ false | some p ↦ has_persistent_id i a p row ]) t.outbox
        ≡ false)
    → OutboxInv t
    → OutboxInv (append_row i a k via c pid body t)
unfolding append_row same_message
append_row-OutboxInv i a k via c pid body t h v = record {
  rising = Rising-append 0 t.outbox_seq t.outbox _ refl v.rising;
  unique = Distinct-append same_message t.outbox _ h v.unique;
}

insert_fcm-OutboxInv :
    (i a : Text) (via : Transport) (pid : Option Text) (body : Text) (t : Tables)
    → OutboxInv t
    → OutboxInv (insert_fcm i a via pid body t)
unfolding insert_fcm
insert_fcm-OutboxInv i a via none body t v =
    unfold insert_fcm in
    append_row-OutboxInv i a MessageKind.fcm via none none body t (any-false t.outbox) v
insert_fcm-OutboxInv i a via (some pid) body t v =
    elim (Bool-cases (any (has_persistent_id i a pid) t.outbox)) [
      | inl e ↦
          rw (insert_fcm, e)
            (record { rising = Rising-skip 0 t.outbox_seq t.outbox v.rising; unique = v.unique })
      | inr e ↦
          rw (insert_fcm, e)
            (append_row-OutboxInv i a MessageKind.fcm via none (some pid) body t e v)
    ]

remember-OutboxInv :
    (i a : Text) (pid : Option Text) (t : Tables) → OutboxInv t → OutboxInv (remember i a pid t)
unfolding remember
remember-OutboxInv i a none t v = v
remember-OutboxInv i a (some pid) t v = record { rising = v.rising; unique = v.unique }

-- The tables that a call leaves: those before it, with or without the insertion.
pub enqueue_fcm_cases {ℓ} :
    (P : Tables → Type ℓ) (i a : Text) (via : Transport) (pid : Option Text) (body : Text)
    (t : Tables)
    → P t
    → P (remember i a pid t)
    → P (remember i a pid (insert_fcm i a via pid body t))
    → P (enqueue_fcm_message i a via pid body t).1
unfolding enqueue_fcm_message
enqueue_fcm_cases P i a via pid body t same noted inserted =
    elim (Bool-cases (not (is_acked i a pid t) && not (is_empty body))) [
      | inl e ↦
          rw (enqueue_fcm_message, e)
            (committed (inserted_id i a pid (insert_fcm i a via pid body t)))
      | inr e ↦ rw (enqueue_fcm_message, e) noted
    ]
  where
    committed :
        (found : Option ℕ) → P (commit_insert i a pid t (insert_fcm i a via pid body t) found).1
    committed none = same
    committed (some id) = inserted

pub enqueue_fcm-OutboxInv :
    (i a : Text) (via : Transport) (pid : Option Text) (body : Text) (t : Tables)
    → OutboxInv t
    → OutboxInv (enqueue_fcm_message i a via pid body t).1
enqueue_fcm-OutboxInv i a via pid body t v =
    enqueue_fcm_cases OutboxInv i a via pid body t v (remember-OutboxInv i a pid t v)
      (remember-OutboxInv i a pid _ (insert_fcm-OutboxInv i a via pid body t v))

pub enqueue_push-OutboxInv :
    (i a c body : Text) (t : Tables)
    → OutboxInv t
    → OutboxInv (enqueue_unified_push_message i a c body t).1
unfolding enqueue_unified_push_message
enqueue_push-OutboxInv i a c body t v =
    append_row-OutboxInv i a MessageKind.unified_push Transport.web_socket (some c) none body t
      (any-false t.outbox) v

-- What a call does to the outbox otherwise: it deletes rows, or changes fields that no key has.
pub delete-OutboxInv :
    (d : OutboxRow → Bool) (t : Tables)
    → OutboxInv t
    → OutboxInv (record t { outbox = delete d t.outbox })
delete-OutboxInv d t v = record {
  rising = Rising-delete d 0 t.outbox_seq t.outbox v.rising;
  unique = Distinct-delete same_message d t.outbox v.unique;
}

pub defer-OutboxInv :
    (id seconds : ℕ) (t : Tables) → OutboxInv t → OutboxInv (defer_outbox_message id seconds t)
unfolding defer_outbox_message same_message
defer-OutboxInv id seconds t v = record {
  rising =
      Rising-update (λ row. row.id == id) (deferred (t.now + seconds)) 0 t.outbox_seq t.outbox
        (λ row. refl) v.rising;
  unique =
      Distinct-update same_message (λ row. row.id == id) (deferred (t.now + seconds)) t.outbox
        (λ a b. refl) (λ a b. refl) v.unique;
}
