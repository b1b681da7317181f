-- ===== src/Bridge/Tasks.antt =====
-- crates/bridge/src/fcm.rs: the listeners of the map are exactly those that run.
use mathlib.Core.Option.{some-injective}
use pushcompat.Prelude.{
  ℕ, ◌<◌, ◌≡◌, refl, ap, subst, ◌∙◌, List, [], ◌∷◌, some, Bool, true, false, Text, ◌==◌, =?_iff,
  find, any, delete, map, Distinct, Distinct-delete, delete-none, Bool-cases, Option-cases, inl,
  inr, arith, All, All-delete,
}
use pushcompat.Bridge.State.{AppState, ListenerHandle}
use pushcompat.Bridge.Listeners.{is_listener, stop_listener}

abbrev pub same_listener : ListenerHandle → ListenerHandle → Bool
same_listener a b = is_listener b.install_id b.app_id a

abbrev pub same_task : ListenerHandle → ListenerHandle → Bool
same_task a b = b.task == a.task

-- Handles, each with a key and a task of its own; the tasks that run are just theirs.
pub record TasksInv (s : AppState) : Type 0 where
  pub keys : Distinct same_listener s.listeners
  pub tasks : Distinct same_task s.listeners
  pub spawned : All (λ h. h.task < s.next_task) s.listeners
  pub running : s.running ≡ map (λ h. h.task) s.listeners

delete_other :
    (n : ℕ) (handles : List ListenerHandle)
    → any (λ h. h.task == n) handles ≡ false
    → delete (λ k. k == n) (map (λ h. h.task) handles) ≡ map (λ h. h.task) handles
delete_other n [] e = refl
delete_other n (h ∷ handles) e = ground (arith, delete_other n handles)

same_key_listener :
    (i a : Text) (x y : ListenerHandle)
    → is_listener i a x ≡ true
    → is_listener i a y ≡ same_listener x y
unfolding is_listener
same_key_listener i a x y e = ground (
  arith,
  e,
  =?_iff x.install_id i,
  =?_iff x.app_id a,
  =?_iff y.install_id i,
  =?_iff y.app_id a,
  =?_iff x.install_id y.install_id,
  =?_iff x.app_id y.app_id,
)

any_agree :
    (p q : ListenerHandle → Bool) (handles : List ListenerHandle)
    → ((h : ListenerHandle) → p h ≡ q h)
    → any p handles ≡ any q handles
any_agree p q [] e = refl
any_agree p q (h ∷ handles) e = ground (arith, e h, any_agree p q handles e)

other_task :
    (p : ListenerHandle → Bool) (n : ℕ) (handles : List ListenerHandle) (x : ListenerHandle)
    → find p handles ≡ some x
    → any (λ h. h.task == n) handles ≡ false
    → (n == x.task) ≡ false
other_task p n [] x f e = cc
other_task p n (h ∷ handles) x f e = elim (Bool-cases (p h)) [
  | inl m ↦
      let same : h.task ≡ x.task = ap (λ k. k.task) (some-injective h x (ground (arith, f, m))) in
      ground (arith, e, same)
  | inr m ↦ other_task p n handles x (ground (arith, f, m)) (ground (arith, e))
]

first_task :
    (h : ListenerHandle) (handles : List ListenerHandle)
    → any (same_task h) handles ≡ false
    → delete (λ j. j == h.task) (map (λ y. y.task) (h ∷ handles)) ≡ map (λ y. y.task) handles
first_task h handles m = ground (arith, delete_other h.task handles m)

-- The handle that is found leaves the map, and its task the tasks.
stop_running :
    (i a : Text) (handles : List ListenerHandle) (x : ListenerHandle)
    → Distinct same_listener handles
    → Distinct same_task handles
    → find (is_listener i a) handles ≡ some x
    → delete (λ k. k == x.task) (map (λ h. h.task) handles)
      ≡ map (λ h. h.task) (delete (is_listener i a) handles)
stop_running i a [] x d e f = cc
stop_running i a (h ∷ handles) x (n, d) (m, e) f = elim (Bool-cases (is_listener i a h)) [
  | inl p ↦
      let same : h.task ≡ x.task = ap (λ k. k.task) (some-injective h x (ground (arith, f, p))) in
      let left = delete-none (is_listener i a) handles (
        any_agree (is_listener i a) (same_listener h) handles (λ y. same_key_listener i a h y p)
        ∙ n) in
      rw (p, left)
        (subst
          (λ k. delete (λ j. j == k) (map (λ y. y.task) (h ∷ handles)) ≡ map (λ y. y.task) handles)
          same (first_task h handles m))
  | inr p ↦
      let other = other_task (is_listener i a) h.task handles x (ground (arith, f, p)) m in
      rw (p, other) (ap (◌∷◌ h.task) (stop_running i a handles x d e (ground (arith, f, p))))
]

pub stop_listener-TasksInv :
    (i a : Text) (s : AppState) → TasksInv s → TasksInv (stop_listener i a s)
unfolding stop_listener
stop_listener-TasksInv i a s v = elim (Option-cases (find (is_listener i a) s.listeners)) [
  | inl e ↦ rw (e, stop_listener) v
  | inr (x, e) ↦
      rw (e, stop_listener)
        (record {
          keys = Distinct-delete same_listener (is_listener i a) s.listeners v.keys;
          tasks = Distinct-delete same_task (is_listener i a) s.listeners v.tasks;
          spawned = All-delete (λ h. h.task < s.next_task) (is_listener i a) s.listeners v.spawned;
          running =
              ap (delete (λ k. k == x.task)) v.running
              ∙ stop_running i a s.listeners x v.keys v.tasks e;
        })
]
