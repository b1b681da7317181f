-- ===== src/Tests/OfJni.antt =====
-- The handles and the set-up of the listener on the device, on small inputs.
use pushcompat.Prelude.{
  ℕ, suc, ◌<◌, ◌≡◌, refl, [], ◌∷◌, List, true, Text, bytes, ◌==◌, ◌=?◌, lookup, insert, remove,
  if◌then◌else◌, arith, All,
}
use pushcompat.Jni.Handle.{
  NativeHandle, new_handle, store_flag, take_stopper, install_stopper, Reachable, created, stepped,
  stores, takes, installs,
}
use pushcompat.Jni.Stops.{Told, Own, stopper-Own, Reachable-Told}
use pushcompat.Jni.Registry.{
  Registry, done, unknown_handle, get_handle, create_handle, destroy_handle,
}
use pushcompat.Jni.Numbers.{Numbered, create_handle-fresh, stopped_of, destroy_handle-outcome}
use pushcompat.Jni.Setup.{RunRegistration, Connecting, connected, ready, prepare, set_up_all}
use pushcompat.Jni.Ready.{Accepted, prepare-Accepted}

-- A run starts, and a stop is requested; its sender is still in its place.
abbrev stopping : NativeHandle
stopping = store_flag (install_stopper new_handle)

stopping-Reachable : Reachable stopping
stopping-Reachable = stepped (stepped created installs) stores

flagged : stopping.stop_requested ≡ true
unfolding store_flag
flagged = refl

stopper-Own_example : Own stopping.stopper stopping.running
stopper-Own_example = stopper-Own stopping stopping-Reachable

Reachable-Told_example :
    All (Told stopping.stopper stopping.pending stopping.taken stopping.signalled) stopping.running
Reachable-Told_example = Reachable-Told stopping stopping-Reachable flagged

-- Then the sender is taken, and the run is under way to be told.
pending_one : 0 < stopping.pending
unfolding store_flag install_stopper
pending_one = omega arith

taken_one : (take_stopper stopping).taken ≡ 0 ∷ []
unfolding take_stopper store_flag install_stopper
taken_one = refl

taken-Reachable : Reachable (take_stopper stopping)
taken-Reachable = stepped stopping-Reachable (takes pending_one)

abbrev registry : Registry
registry = record { handles = (1, new_handle) ∷ []; next_handle = 2 }

registry-Numbered : Numbered registry
registry-Numbered = record { below = (omega arith, tt); positive = omega arith; most = omega arith }

create_handle-fresh_example :
    let (id, u) = create_handle true registry in
    (id ≡ done 2)
    × (get_handle 2 registry ≡ unknown_handle)
    × (get_handle 1 u ≡ (if 2 == 1 then done new_handle else get_handle 1 registry))
    × Numbered u
create_handle-fresh_example = create_handle-fresh registry 1 registry-Numbered (omega arith)

destroy_handle-outcome_example :
    let (answer, u) = destroy_handle 1 registry in
    (answer ≡ stopped_of (get_handle 1 registry))
    × (get_handle 1 u ≡ (if 1 == 1 then unknown_handle else get_handle 1 registry))
destroy_handle-outcome_example = destroy_handle-outcome 1 1 registry

abbrev registrations : List RunRegistration
registrations =
    record { package_name = bytes "a"; sender_id = bytes "1"; persistent_ids = [] }
    ∷ record { package_name = bytes "b"; sender_id = bytes "2"; persistent_ids = bytes "x" ∷ [] }
    ∷ []

abbrev sessions : List (Text × ℕ)
sessions = (bytes "b", 20) ∷ (bytes "a", 10) ∷ []

abbrev connect : ℕ → List Text → Connecting ℕ
connect session ids = connected (suc session)

prepared :
    prepare connect registrations sessions
    ≡ ready
        ((bytes "a", bytes "1") ∷ (bytes "b", bytes "2") ∷ [])
        ((bytes "a", 11) ∷ (bytes "b", 21) ∷ [])
unfolding prepare set_up_all lookup insert remove ◌=?◌
prepared = refl

prepare-Accepted_example : Accepted connect registrations sessions
prepare-Accepted_example =
    prepare-Accepted connect registrations sessions
      ((bytes "a", bytes "1") ∷ (bytes "b", bytes "2") ∷ [])
      ((bytes "a", 11) ∷ (bytes "b", 21) ∷ []) prepared
