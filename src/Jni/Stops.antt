-- ===== src/Jni/Stops.antt =====
-- crates/jni/src/lib.rs: no stop is lost, and no run takes the sender of another.
use pushcompat.Prelude.{
  ℕ, suc, ◌-◌, ◌<◌, ◌≡◌, refl, sym, ap, subst, ◌⊎◌, inl, inr, List, [], ◌∷◌, Option, none, some,
  Bool, true, false, ◌==◌, delete, arith, All, All-mono, All-delete,
}
use mathlib.Core.Option.{some-injective}
use pushcompat.Jni.Handle.{
  NativeHandle, with_option, member, store_flag, take_stopper, send_stop, start_run, install_if,
  install_stopper, drop_guard, Step, stores, takes, sends, installs, ends, Reachable, created,
  stepped,
}

-- A run has been told to stop, or a thread is on the way to tell it: by the sender in its place, the
-- calls that will take it, the senders taken, and the runs told.
abbrev pub Told : Option ℕ → ℕ → List ℕ → List ℕ → ℕ → Type 0
Told stopper pending taken signalled run =
    (member run signalled ≡ true)
    ⊎ ((member run taken ≡ true) ⊎ ((stopper ≡ some run) × (0 < pending)))

-- A sender in its place is that of the only run.
abbrev pub Own : Option ℕ → List ℕ → Type 0
Own none running = Unit
Own (some run) running = running ≡ run ∷ []

-- Before any stop, a run has its sender in its place.
abbrev Calm : Option ℕ → List ℕ → Type 0
Calm none running = running ≡ []
Calm (some run) running = Unit

abbrev Answered : Bool → Option ℕ → ℕ → List ℕ → List ℕ → List ℕ → Type 0
Answered true stopper pending taken signalled running =
    All (Told stopper pending taken signalled) running
Answered false stopper pending taken signalled running = Calm stopper running × (pending ≡ 0)

abbrev SafeAt : Bool → Option ℕ → ℕ → List ℕ → List ℕ → List ℕ → Type 0
SafeAt flag stopper pending taken signalled running =
    Own stopper running × Answered flag stopper pending taken signalled running

abbrev Safe : NativeHandle → Type 0
Safe h = SafeAt h.stop_requested h.stopper h.pending h.taken h.signalled h.running

store-Safe :
    (flag : Bool) (stopper : Option ℕ) (p : ℕ) (t s runs : List ℕ)
    → SafeAt flag stopper p t s runs
    → SafeAt true stopper (suc p) t s runs
store-Safe true stopper p t s runs (own, told) =
    (own, All-mono (Told stopper p t s) (Told stopper (suc p) t s) more runs told)
  where
    more : (run : ℕ) → Told stopper p t s run → Told stopper (suc p) t s run
    more run (inl a) = inl a
    more run (inr (inl a)) = inr (inl a)
    more run (inr (inr (e, l))) = inr (inr (e, omega arith))
store-Safe false none p t s runs (own, (calm, q)) =
    (tt, subst (All (Told none (suc p) t s)) (sym calm) tt)
store-Safe false (some run) p t s runs (own, (calm, q)) =
    (own, subst (All (Told (some run) (suc p) t s)) (sym own) (inr (inr (refl, omega arith)), tt))

take-Told :
    (stopper : Option ℕ) (p q : ℕ) (t s : List ℕ) (run : ℕ)
    → Told stopper p t s run
    → Told none q (with_option stopper t) s run
take-Told stopper p q t s run (inl a) = inl a
take-Told none p q t s run (inr (inl a)) = inr (inl a)
take-Told (some other) p q t s run (inr (inl a)) = inr (inl (ground arith))
take-Told none p q t s run (inr (inr (e, l))) = cc
take-Told (some other) p q t s run (inr (inr (e, l))) =
    inr (inl (ground (arith, some-injective other run e)))

take-Safe :
    (flag : Bool) (stopper : Option ℕ) (p : ℕ) (t s runs : List ℕ)
    → 0 < p
    → SafeAt flag stopper p t s runs
    → SafeAt flag none (p - 1) (with_option stopper t) s runs
take-Safe true stopper p t s runs l (own, told) = (
  tt,
  All-mono (Told stopper p t s) (Told none (p - 1) (with_option stopper t) s)
      (take-Told stopper p (p - 1) t s) runs told,
)
take-Safe false stopper p t s runs l (own, (calm, q)) = ground arith

member-delete :
    (r run : ℕ) (runs : List ℕ)
    → member r runs ≡ true
    → ((run == r) ≡ true) ⊎ (member r (delete (λ x. x == run) runs) ≡ true)
member-delete r run [] h = cc
member-delete r run (x ∷ runs) h = ground (arith, member-delete r run runs)

send-Told :
    (stopper : Option ℕ) (p : ℕ) (t s : List ℕ) (run other : ℕ)
    → Told stopper p t s other
    → Told stopper p (delete (λ r. r == run) t) (run ∷ s) other
send-Told stopper p t s run other (inl a) = inl (ground arith)
send-Told stopper p t s run other (inr (inl a)) = elim (member-delete other run t a) [
  | inl e ↦ inl (ground (arith, e))
  | inr e ↦ inr (inl e)
]
send-Told stopper p t s run other (inr (inr e)) = inr (inr e)

send-Safe :
    (flag : Bool) (stopper : Option ℕ) (p : ℕ) (t s runs : List ℕ) (run : ℕ)
    → SafeAt flag stopper p t s runs
    → SafeAt flag stopper p (delete (λ r. r == run) t) (run ∷ s) runs
send-Safe true stopper p t s runs run (own, told) = (
  own,
  All-mono (Told stopper p t s) (Told stopper p (delete (λ r. r == run) t) (run ∷ s))
      (send-Told stopper p t s run) runs told,
)
send-Safe false stopper p t s runs run h = h

kept_Told : (p new : ℕ) (t s : List ℕ) (run : ℕ) → Told none p t s run → Told none p t (new ∷ s) run
kept_Told p new t s run (inl a) = inl (ground arith)
kept_Told p new t s run (inr a) = inr a

start-Safe :
    (h : NativeHandle) (flag : Bool)
    → h.stop_requested ≡ flag
    → SafeAt flag none h.pending h.taken h.signalled h.running
    → Safe (start_run flag h)
start-Safe h true e (own, told) =
    subst (λ f. SafeAt f none h.pending h.taken (h.next_run ∷ h.signalled) (h.next_run ∷ h.running))
      (sym e)
      (
        tt,
        (
          inl (ground arith),
          All-mono (Told none h.pending h.taken h.signalled)
              (Told none h.pending h.taken (h.next_run ∷ h.signalled))
              (kept_Told h.pending h.next_run h.taken h.signalled) h.running told,
        ),
      )
start-Safe h false e (own, (calm, q)) =
    subst (λ f. SafeAt f (some h.next_run) h.pending h.taken h.signalled (h.next_run ∷ h.running))
      (sym e) (ap (◌∷◌ h.next_run) calm, (tt, q))

install-Safe : (h : NativeHandle) (o : Option ℕ) → h.stopper ≡ o → Safe h → Safe (install_if o h)
install-Safe h (some run) e safe = safe
install-Safe h none e safe =
    start-Safe h h.stop_requested refl
      (subst (λ o. SafeAt h.stop_requested o h.pending h.taken h.signalled h.running) e safe)

-- The one run whose sender was in its place is the one that ends.
only_ends :
    (k run : ℕ) (runs : List ℕ)
    → runs ≡ k ∷ []
    → member run runs ≡ true
    → delete (λ r. r == run) runs ≡ []
only_ends k run runs e m = rw e (ground (arith, subst (λ x. member run x ≡ true) e m))

drop-Safe :
    (flag : Bool) (stopper : Option ℕ) (p : ℕ) (t s runs : List ℕ) (run : ℕ)
    → member run runs ≡ true
    → SafeAt flag stopper p t s runs
    → SafeAt flag none p t s (delete (λ r. r == run) runs)
drop-Safe true none p t s runs run m (own, told) =
    (tt, All-delete (Told none p t s) (λ r. r == run) runs told)
drop-Safe true (some k) p t s runs run m (own, told) =
    (tt, subst (All (Told none p t s)) (sym (only_ends k run runs own m)) tt)
drop-Safe false none p t s runs run m (own, (calm, q)) = (tt, (ap (delete (λ r. r == run)) calm, q))
drop-Safe false (some k) p t s runs run m (own, (calm, q)) = (tt, (only_ends k run runs own m, q))

Step-Safe : (h h' : NativeHandle) → Step h h' → Safe h → Safe h'
unfolding store_flag take_stopper send_stop install_stopper drop_guard
Step-Safe h h' stores safe =
    store-Safe h.stop_requested h.stopper h.pending h.taken h.signalled h.running safe
Step-Safe h h' (takes l) safe =
    take-Safe h.stop_requested h.stopper h.pending h.taken h.signalled h.running l safe
Step-Safe h h' (sends run m) safe =
    send-Safe h.stop_requested h.stopper h.pending h.taken h.signalled h.running run safe
Step-Safe h h' installs safe = install-Safe h h.stopper refl safe
Step-Safe h h' (ends run m) safe =
    drop-Safe h.stop_requested h.stopper h.pending h.taken h.signalled h.running run m safe

Reachable-Safe : (h : NativeHandle) → Reachable h → Safe h
Reachable-Safe h created = (tt, (refl, refl))
Reachable-Safe h' (stepped {h} r s) = Step-Safe h h' s (Reachable-Safe h r)

-- In every state that threads can reach, a sender in its place is that of a run, and that run is the
-- only one.
pub stopper-Own : (h : NativeHandle) → Reachable h → Own h.stopper h.running
stopper-Own h r = (Reachable-Safe h r).0

answered :
    (flag : Bool) (stopper : Option ℕ) (p : ℕ) (t s runs : List ℕ)
    → flag ≡ true
    → SafeAt flag stopper p t s runs
    → All (Told stopper p t s) runs
answered true stopper p t s runs e (own, told) = told
answered false stopper p t s runs e safe = cc

-- No stop is lost: in every state that threads can reach in which a stop was requested, each run
-- has been told to stop, or a thread has taken its sender and is about to use it, or its sender is in
-- its place and a thread is about to take it.
pub Reachable-Told :
    (h : NativeHandle)
    → Reachable h
    → h.stop_requested ≡ true
    → All (Told h.stopper h.pending h.taken h.signalled) h.running
Reachable-Told h r e =
    answered h.stop_requested h.stopper h.pending h.taken h.signalled h.running e
      (Reachable-Safe h r)
