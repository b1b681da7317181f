-- ===== src/Jni/Handle.antt =====
-- crates/jni/src/lib.rs: how a run is stopped, `NativeHandle` and `StopperGuard`. Threads interleave
-- between the accesses that are atomic: the flag, and what is done under the lock of `stopper`. A
-- lock is poisoned only by a panic of its holder, and none of the holders panics.
use pushcompat.Prelude.{
  ℕ, suc, ◌-◌, ◌<◌, ◌≡◌, List, [], ◌∷◌, Option, none, some, Bool, true, false, ◌==◌, any, delete,
}

-- `stopper` holds the sender of a run, by the run's number. `pending` counts the calls of
-- `request_stop` that have stored the flag and not yet taken the sender, `taken` has the senders
-- that such calls have taken and not yet used, `signalled` the runs that were sent a stop, `running`
-- those between `install_stopper` and the end of their guard.
pub record NativeHandle : Type 0 where
  pub stop_requested : Bool
  pub stopper : Option ℕ
  pub pending : ℕ
  pub taken : List ℕ
  pub signalled : List ℕ
  pub running : List ℕ
  pub next_run : ℕ

abbrev pub new_handle : NativeHandle
new_handle = record {
  stop_requested = false;
  stopper = none;
  pending = 0;
  taken = [];
  signalled = [];
  running = [];
  next_run = 0;
}

abbrev pub with_option : Option ℕ → List ℕ → List ℕ
with_option none runs = runs
with_option (some run) runs = run ∷ runs

abbrev pub member : ℕ → List ℕ → Bool
member run runs = any (λ r. r == run) runs

-- `request_stop`: its store, its `take` under the lock, and its `send`.
unfoldable pub store_flag : NativeHandle → NativeHandle
store_flag h = record h { stop_requested = true; pending = suc h.pending }

unfoldable pub take_stopper : NativeHandle → NativeHandle
take_stopper h = record h {
  stopper = none;
  pending = h.pending - 1;
  taken = with_option h.stopper h.taken;
}

unfoldable pub send_stop : ℕ → NativeHandle → NativeHandle
send_stop run h = record h { taken = delete (λ r. r == run) h.taken; signalled = run ∷ h.signalled }

-- A run that starts, with the sender in its place or already used.
abbrev pub start_run : Bool → NativeHandle → NativeHandle
start_run false h = record h {
  stopper = some h.next_run;
  running = h.next_run ∷ h.running;
  next_run = suc h.next_run;
}
start_run true h = record h {
  stopper = none;
  signalled = h.next_run ∷ h.signalled;
  running = h.next_run ∷ h.running;
  next_run = suc h.next_run;
}

-- `install_stopper`: refused while there is a sender. The load of the flag is its only access to
-- what other threads change meanwhile.
abbrev pub install_if : Option ℕ → NativeHandle → NativeHandle
install_if (some run) h = h
install_if none h = start_run h.stop_requested h

unfoldable pub install_stopper : NativeHandle → NativeHandle
install_stopper h = install_if h.stopper h

-- The end of a run: its guard takes whatever sender there is.
unfoldable pub drop_guard : ℕ → NativeHandle → NativeHandle
drop_guard run h = record h { stopper = none; running = delete (λ r. r == run) h.running }

-- One access by one thread.
pub data Step : NativeHandle → NativeHandle → Type 0 where
  stores : {h : NativeHandle} → Step h (store_flag h)
  takes : {h : NativeHandle} → 0 < h.pending → Step h (take_stopper h)
  sends : {h : NativeHandle} (run : ℕ) → member run h.taken ≡ true → Step h (send_stop run h)
  installs : {h : NativeHandle} → Step h (install_stopper h)
  ends : {h : NativeHandle} (run : ℕ) → member run h.running ≡ true → Step h (drop_guard run h)

-- What any threads can bring a handle to.
pub data Reachable : NativeHandle → Type 0 where
  created : Reachable new_handle
  stepped : {h h' : NativeHandle} → Reachable h → Step h h' → Reachable h'
