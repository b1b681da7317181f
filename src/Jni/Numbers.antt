-- ===== src/Jni/Numbers.antt =====
-- crates/jni/src/lib.rs: the ids of handles are fresh, and a destroyed one is unknown.
use pushcompat.Prelude.{
  ℕ, suc, ◌+◌, ◌%◌, ◌^◌, ◌<◌, ◌≤◌, ◌≡◌, refl, ap, subst, inl, inr, List, [], ◌∷◌, none, true, false,
  ◌==◌, ==_iff, find, any, delete, any→find-none, any-delete_self, find-delete, Bool-cases,
  Option-cases, if◌then◌else◌, arith, All, All-delete, All-mono,
}
use pushcompat.Jni.Handle.{NativeHandle, new_handle, store_flag}
use pushcompat.Jni.Registry.{
  Registry, Called, done, unbuilt, exhausted, unknown_handle, has_id, called, get_handle,
  insert_handle, not_positive, create_handle, destroy_handle,
}

abbrev Below : ℕ → ℕ × NativeHandle → Type 0
Below n entry = entry.0 < n

-- Every id that was given out is below the next one, which has not become negative.
pub record Numbered (r : Registry) : Type 0 where
  pub below : All (Below r.next_handle) r.handles
  pub positive : 0 < r.next_handle
  pub most : r.next_handle ≤ 2 ^ 63

-- The handle that a call gives back, asked to stop.
abbrev pub stopped_of : Called NativeHandle → Called NativeHandle
stopped_of (done h) = done (store_flag h)
stopped_of unbuilt = unbuilt
stopped_of exhausted = exhausted
stopped_of unknown_handle = unknown_handle

fresh_id :
    (n : ℕ) (handles : List (ℕ × NativeHandle))
    → All (Below n) handles
    → any (has_id n) handles ≡ false
fresh_id n [] h = refl
fresh_id n ((i, x) ∷ handles) (h, k) = ground (arith, fresh_id n handles k)

abbrev with_new : Registry → Registry
with_new r = record {
  handles = insert_handle r.next_handle new_handle r.handles;
  next_handle = suc r.next_handle;
}

created :
    (r : Registry)
    → Numbered r
    → r.next_handle < 2 ^ 63
    → create_handle true r ≡ (done r.next_handle, with_new r)
unfolding create_handle
created r v h =
    let positive : not_positive r.next_handle ≡ false = ground (arith, v.positive) in
    let next : (r.next_handle + 1) % 2 ^ 64 ≡ suc r.next_handle = omega arith in
    rw (positive, next) refl

with_new-Numbered : (r : Registry) → Numbered r → r.next_handle < 2 ^ 63 → Numbered (with_new r)
with_new-Numbered r v h = record {
  below = (
    omega arith,
    All-mono (Below r.next_handle) (Below (suc r.next_handle)) (λ e l. omega arith) _
        (All-delete (Below r.next_handle) (has_id r.next_handle) r.handles v.below),
  );
  positive = omega arith;
  most = omega arith;
}

get-insert :
    (id other : ℕ) (h : NativeHandle) (handles : List (ℕ × NativeHandle))
    → called (find (has_id other) (insert_handle id h handles))
      ≡ (if id == other then done h else called (find (has_id other) handles))
get-insert id other h handles = elim (Bool-cases (id == other)) [
  | inl e ↦ rw e refl
  | inr e ↦
      rw e (ap called (find-delete (has_id other) (has_id id) handles (λ x m. ground (arith, e))))
]

-- As long as fewer than 2^63 handles were made, a new handle has an id that no handle has, and is
-- found under it with no stop requested; every other id gives what it gave before. The ids stay
-- numbered.
pub create_handle-fresh :
    (r : Registry) (other : ℕ)
    → Numbered r
    → r.next_handle < 2 ^ 63
    → let (id, u) = create_handle true r in
      (id ≡ done r.next_handle)
      × (get_handle r.next_handle r ≡ unknown_handle)
      × (get_handle other u
          ≡ (if r.next_handle == other then done new_handle else get_handle other r))
      × Numbered u
unfolding get_handle
create_handle-fresh r other v h = rw (created r v h) (
  refl,
  ap called
      (any→find-none (has_id r.next_handle) r.handles (fresh_id r.next_handle r.handles v.below)),
  get-insert r.next_handle other new_handle r.handles,
  with_new-Numbered r v h,
)

get-delete :
    (id other : ℕ) (handles : List (ℕ × NativeHandle))
    → called (find (has_id other) (delete (has_id id) handles))
      ≡ (if id == other then unknown_handle else called (find (has_id other) handles))
get-delete id other handles = elim (Bool-cases (id == other)) [
  | inl e ↦ rw e (
      ap called (
        any→find-none (has_id other) (delete (has_id id) handles) (
          subst (λ o. any (has_id o) (delete (has_id id) handles) ≡ false) ((==_iff id other).0 e)
            (any-delete_self (has_id id) handles))))
  | inr e ↦
      rw e (ap called (find-delete (has_id other) (has_id id) handles (λ x m. ground (arith, e))))
]

get_missing :
    (id other : ℕ) (handles : List (ℕ × NativeHandle))
    → find (has_id id) handles ≡ none
    → called (find (has_id other) handles)
      ≡ (if id == other then unknown_handle else called (find (has_id other) handles))
get_missing id other handles h = elim (Bool-cases (id == other)) [
  | inl e ↦ rw e (ap called (subst (λ o. find (has_id o) handles ≡ none) ((==_iff id other).0 e) h))
  | inr e ↦ rw e refl
]

-- A handle that is destroyed is given back with a stop requested, and is unknown from then on; an
-- unknown one changes nothing. The other handles stay.
pub destroy_handle-outcome :
    (id other : ℕ) (r : Registry)
    → let (answer, u) = destroy_handle id r in
      (answer ≡ stopped_of (get_handle id r))
      × (get_handle other u ≡ (if id == other then unknown_handle else get_handle other r))
unfolding destroy_handle get_handle
destroy_handle-outcome id other r = elim (Option-cases (find (has_id id) r.handles)) [
  | inl e ↦ rw e (refl, get_missing id other r.handles e)
  | inr ((i, h), e) ↦ rw e (refl, get-delete id other r.handles)
]
