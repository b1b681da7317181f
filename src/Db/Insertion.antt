-- ===== src/Db/Insertion.antt =====
-- crates/bridge/src/db.rs: the row that an enqueued message of FCM is given out by.
use pushcompat.Types.MessageKind.{fcm}
use pushcompat.Prelude.{
  ◌++◌, sym, subst, =?_iff, ◌=??◌, ℕ, suc, ◌≡◌, refl, ◌∙◌, ap, inl, inr, List, [], ◌∷◌, Option,
  none, some, Bool, true, false, not, ◌&&◌, Text, =?_refl, any, find, any-reverse, reverse,
  if◌then◌else◌, Bool-cases, arith,
}
use mathlib.Core.List.{reverse-append, mem-reverse, Mem, mem-cons_self, mem-cons_of_mem}
use mathlib.Core.Option.{some-injective}
use pushcompat.Types.Transport.{Transport}
use pushcompat.Db.Tables.{Tables, OutboxRow}
use pushcompat.Db.Enqueue.{
  queued, skipped, id_of, has_persistent_id, is_acked, is_empty, insert_fcm, inserted_id, remember,
  append_row, enqueue_fcm_message,
}

found {ℓ} :
    {A : Type ℓ} (p : A → Bool) (xs : List A) → any p xs ≡ true → (a : A) × (find p xs ≡ some a)
found p [] h = cc
found p (x ∷ xs) h = elim (Bool-cases (p x)) [
  | inl e ↦ (x, rw e)
  | inr e ↦ rw e (found p xs (ground arith))
]

-- The row of a message that is not in the outbox: it has the next id and is due at once.
abbrev pub new_row : Text → Text → Transport → Option Text → Text → Tables → OutboxRow
new_row i a via pid body t = record {
  id = suc t.outbox_seq;
  install_id = i;
  app_id = a;
  kind = fcm;
  transport = via;
  connector_token = none;
  persistent_id = pid;
  payload = body;
  attempts = 0;
  next_attempt_at = t.now;
}

found_in {ℓ} :
    {A : Type ℓ} (p : A → Bool) (xs : List A) (a : A) → find p xs ≡ some a → (p a ≡ true) × Mem a xs
found_in p [] a h = cc
found_in p (x ∷ xs) a h = elim (Bool-cases (p x)) [
  | inl e ↦
      let same : x ≡ a = some-injective x a (sym (rw e refl) ∙ h) in
      (subst (λ y. p y ≡ true) same e, subst (λ y. Mem y (x ∷ xs)) same mem-cons_self)
  | inr e ↦ let (q, m) = found_in p xs a (sym (rw e refl) ∙ h) in (q, mem-cons_of_mem x m)
]

-- Whether the outbox has a message of the app with the id.
abbrev pub has_row : Text → Text → Option Text → Tables → Bool
has_row i a none t = false
has_row i a (some pid) t = any (has_persistent_id i a pid) t.outbox

-- A row of the outbox that has the id.
abbrev pub HasRow : Text → Text → Option Text → Tables → ℕ → Type 0
HasRow i a pid t id =
    (row : OutboxRow) × Mem row t.outbox
    × (row.install_id ≡ i)
    × (row.app_id ≡ a)
    × (row.persistent_id ≡ pid)
    × (row.id ≡ id)

same_id : (o : Option Text) (pid : Text) → (o =?? some pid) ≡ true → o ≡ some pid
same_id none pid h = cc
same_id (some q) pid h = ap some ((=?_iff q pid).0 h)

found_row :
    (i a pid : Text) (t : Tables)
    → any (has_persistent_id i a pid) t.outbox ≡ true
    → (id : ℕ) × (id_of (find (has_persistent_id i a pid) (reverse t.outbox)) ≡ some id)
      × HasRow i a (some pid) t id
unfolding has_persistent_id
found_row i a pid t e =
    let (row, f) =
      found (has_persistent_id i a pid) (reverse t.outbox)
        (any-reverse (has_persistent_id i a pid) t.outbox ∙ e) in
    let (q, m) = found_in (has_persistent_id i a pid) (reverse t.outbox) row f in
    (
      row.id,
      rw f refl,
      (
        row,
        (mem-reverse {a = row} {l = t.outbox}).0 m,
        ground (arith, =?_iff row.install_id i),
        ground (arith, =?_iff row.app_id a),
        same_id row.persistent_id pid (ground arith),
        refl,
      ),
    )

-- The SELECT after the insertion finds a row: the new one, or the one that has the id.
pub inserted_old :
    (i a : Text) (via : Transport) (pid : Option Text) (body : Text) (t : Tables)
    → has_row i a pid t ≡ true
    → (id : ℕ) × (inserted_id i a pid (insert_fcm i a via pid body t) ≡ some id)
      × HasRow i a pid t id
      × ((insert_fcm i a via pid body t).outbox ≡ t.outbox)
unfolding insert_fcm inserted_id
inserted_old i a via none body t e = cc
inserted_old i a via (some pid) body t e =
    let (id, f, held) = found_row i a pid t e in
    (id, rw (insert_fcm, e) f, held, rw (insert_fcm, e) refl)

pub inserted_new :
    (i a : Text) (via : Transport) (pid : Option Text) (body : Text) (t : Tables)
    → has_row i a pid t ≡ false
    → (inserted_id i a pid (insert_fcm i a via pid body t) ≡ some (suc t.outbox_seq))
      × ((insert_fcm i a via pid body t).outbox ≡ t.outbox ++ new_row i a via pid body t ∷ [])
unfolding insert_fcm append_row inserted_id
inserted_new i a via none body t e =
    (rw (reverse-append t.outbox) (ground (arith, =?_refl i, =?_refl a)), refl)
inserted_new i a via (some pid) body t e = (
  rw (insert_fcm, e)
      (rw (reverse-append t.outbox)
        (unfold has_persistent_id in ground (arith, =?_refl i, =?_refl a, =?_refl pid))),
  rw (insert_fcm, e) refl,
)

inserted :
    (i a : Text) (via : Transport) (pid : Option Text) (body : Text) (t : Tables)
    → (id : ℕ) × (inserted_id i a pid (insert_fcm i a via pid body t) ≡ some id)
inserted i a via pid body t = elim (Bool-cases (has_row i a pid t)) [
  | inl e ↦ let (id, f, held, rows) = inserted_old i a via pid body t e in (id, f)
  | inr e ↦ (suc t.outbox_seq, (inserted_new i a via pid body t e).0)
]

abbrev pub is_new : Text → Text → Option Text → Text → Tables → Bool
is_new i a pid body t = not (is_acked i a pid t) && not (is_empty body)

pub enqueue_fcm_total :
    (i a : Text) (via : Transport) (pid : Option Text) (body : Text) (t : Tables)
    → (is_new i a pid body t ≡ true
        → (id : ℕ) × (enqueue_fcm_message i a via pid body t
            ≡ (queued id, remember i a pid (insert_fcm i a via pid body t))))
      × (is_new i a pid body t ≡ false
          → enqueue_fcm_message i a via pid body t ≡ (skipped, remember i a pid t))
unfolding enqueue_fcm_message
enqueue_fcm_total i a via pid body t = (
  λ e. let (id, f) = inserted i a via pid body t in (id, rw (enqueue_fcm_message, e) (rw f)),
  λ e. rw (enqueue_fcm_message, e),
)

pub enqueue_fcm_message_if :
    (i a : Text) (via : Transport) (pid : Option Text) (body : Text) (t : Tables)
    → (id : ℕ) × (enqueue_fcm_message i a via pid body t ≡ (
        if is_new i a pid body t
        then (queued id, remember i a pid (insert_fcm i a via pid body t))
        else (skipped, remember i a pid t)))
enqueue_fcm_message_if i a via pid body t = elim (Bool-cases (is_new i a pid body t)) [
  | inl e ↦ let (id, f) = (enqueue_fcm_total i a via pid body t).0 e in (id, f ∙ rw e refl)
  | inr e ↦ (0, (enqueue_fcm_total i a via pid body t).1 e ∙ rw e refl)
]

pub given :
    (i a : Text) (via : Transport) (pid : Option Text) (body : Text) (t : Tables) (id : ℕ)
    → is_new i a pid body t ≡ true
    → inserted_id i a pid (insert_fcm i a via pid body t) ≡ some id
    → enqueue_fcm_message i a via pid body t
      ≡ (queued id, remember i a pid (insert_fcm i a via pid body t))
unfolding enqueue_fcm_message
given i a via pid body t id e f = rw (enqueue_fcm_message, e) (rw f)
