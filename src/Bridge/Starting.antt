-- ===== src/Bridge/Starting.antt =====
-- crates/bridge/src/fcm.rs: listeners that are started and stopped in any order.
use pushcompat.Prelude.{
  ℕ, suc, ◌<◌, ◌≡◌, refl, sym, ap, ◌∙◌, List, [], ◌∷◌, ◌++◌, Option, none, some, false, Text, ◌==◌,
  find, any, any-delete_self, find-none, map, Distinct-append, Option-cases, inl, inr, arith, All,
  All-append, All-mono,
}
use pushcompat.Bridge.State.{AppState, ListenerConfig, ListenerHandle, query, execute}
use pushcompat.Db.Registrations.{get_fcm_session, save_fcm_session}
use pushcompat.Fcm.Sender.{extract_sender_id}
use pushcompat.Bridge.Listeners.{
  FcmService, StoredFcmRegistration, is_listener, stop_listener, spawn_listener, running_token,
  save_session, stored_or_registered, credentials_of, finish_start, restart_listener,
  start_listener,
}
use pushcompat.Bridge.Gate.{call_cases}
use pushcompat.Bridge.Tasks.{same_listener, same_task, TasksInv, stop_listener-TasksInv}

-- No handle has the key.
pub record Cleared (i a : Text) (s : AppState) : Type 0 where
  pub inv : TasksInv s
  pub absent : any (is_listener i a) s.listeners ≡ false

stop_listener-Cleared : (i a : Text) (s : AppState) → TasksInv s → Cleared i a (stop_listener i a s)
unfolding stop_listener
stop_listener-Cleared i a s v = elim (Option-cases (find (is_listener i a) s.listeners)) [
  | inl e ↦
      rw (e, stop_listener) (record { inv = v; absent = find-none (is_listener i a) s.listeners e })
  | inr (x, e) ↦
      let stopped = stop_listener-TasksInv i a s v in
      record {
        inv = stopped;
        absent = rw (e, stop_listener) (any-delete_self (is_listener i a) s.listeners);
      }
]

-- The database does not touch the map.
same_map-Cleared :
    (i a : Text) (s u : AppState)
    → u.listeners ≡ s.listeners
    → u.running ≡ s.running
    → u.next_task ≡ s.next_task
    → Cleared i a s
    → Cleared i a u
same_map-Cleared i a s u e f g v = record {
  inv = record {
    keys = rw e v.inv.keys;
    tasks = rw e v.inv.tasks;
    spawned = rw (e, g) v.inv.spawned;
    running = rw (e, f) v.inv.running;
  };
  absent = rw e v.absent;
}

save_session-Cleared :
    (f : FcmService) (i a : Text) (stored : StoredFcmRegistration) (s : AppState)
    → Cleared i a s
    → Cleared i a (save_session f i a stored s)
unfolding save_session
save_session-Cleared f i a stored s v = elim (Option-cases (f.to_string stored)) [
  | inl e ↦ rw (e, save_session) v
  | inr (json, e) ↦
      rw (e, save_session)
        (call_cases (λ x. Cleared i a x.1) (execute (save_fcm_session i a json)) s
          (λ fs. same_map-Cleared i a s (record s { faults = fs }) refl refl refl v)
          (λ fs.
            same_map-Cleared i a s
              (record s { tables = save_fcm_session i a json s.tables; faults = fs }) refl refl refl
              v))
]

no_task :
    (n : ℕ) (handles : List ListenerHandle)
    → All (λ h. h.task < n) handles
    → any (λ h. n == h.task) handles ≡ false
no_task n [] h = refl
no_task n (x ∷ handles) (h, k) = ground (arith, no_task n handles k)

map_append :
    (xs ys : List ListenerHandle)
    → map (λ h. h.task) (xs ++ ys) ≡ map (λ h. h.task) xs ++ map (λ h. h.task) ys
map_append [] ys = refl
map_append (x ∷ xs) ys = ap (◌∷◌ x.task) (map_append xs ys)

spawn_listener-TasksInv :
    (i a token : Text) (config : ListenerConfig) (s : AppState)
    → Cleared i a s
    → TasksInv (spawn_listener i a token config s)
unfolding spawn_listener
spawn_listener-TasksInv i a token config s v = record {
  keys = Distinct-append same_listener s.listeners _ v.absent v.inv.keys;
  tasks =
      Distinct-append same_task s.listeners _ (no_task s.next_task s.listeners v.inv.spawned)
        v.inv.tasks;
  spawned =
      All-append (λ h. h.task < suc s.next_task) s.listeners _
        (All-mono (λ h. h.task < s.next_task) (λ h. h.task < suc s.next_task)
          (λ h k. omega (arith, k)) s.listeners v.inv.spawned)
        (omega arith, tt);
  running =
      ap (λ (tasks : List ℕ). tasks ++ s.next_task ∷ []) v.inv.running
      ∙ sym (map_append s.listeners _);
}

finish_start-TasksInv :
    (f : FcmService) (i a : Text) (config : ListenerConfig) (stored : Option StoredFcmRegistration)
    (s : AppState)
    → Cleared i a s
    → TasksInv (finish_start f i a config stored s).1
unfolding finish_start
finish_start-TasksInv f i a config none s v = v.inv
finish_start-TasksInv f i a config (some stored) s v =
    spawn_listener-TasksInv i a stored.gcm_token config (save_session f i a stored s)
      (save_session-Cleared f i a stored s v)

restart_listener-TasksInv :
    (f : FcmService) (i a : Text) (config : ListenerConfig) (s : AppState)
    → TasksInv s
    → TasksInv (restart_listener f i a config s).1
unfolding restart_listener
restart_listener-TasksInv f i a config s v =
    let stopped = stop_listener-Cleared i a s v in
    elim (Option-cases (extract_sender_id config.firebase_app_id)) [
      | inl e ↦ rw (e, restart_listener) stopped.inv
      | inr (sender_id, e) ↦
          rw (e, restart_listener)
            (call_cases
              (λ x.
                TasksInv
                  (finish_start f i a config
                    (stored_or_registered f (credentials_of sender_id a config) x.0) x.1).1)
              (query (get_fcm_session i a)) (stop_listener i a s)
              (λ fs.
                finish_start-TasksInv f i a config _ (record (stop_listener i a s) { faults = fs })
                  (same_map-Cleared i a (stop_listener i a s) _ refl refl refl stopped))
              (λ fs.
                finish_start-TasksInv f i a config _ (record (stop_listener i a s) { faults = fs })
                  (same_map-Cleared i a (stop_listener i a s) _ refl refl refl stopped)))
    ]

start_listener-TasksInv :
    (f : FcmService) (i a : Text) (config : ListenerConfig) (s : AppState)
    → TasksInv s
    → TasksInv (start_listener f i a config s).1
unfolding start_listener
start_listener-TasksInv f i a config s v = elim (Option-cases (running_token i a config s)) [
  | inl e ↦ rw (e, start_listener) (restart_listener-TasksInv f i a config s v)
  | inr (token, e) ↦ rw (e, start_listener) v
]

-- What the handlers ask of the manager of listeners.
pub data Request : Type 0 where
  start : Text → Text → ListenerConfig → Request
  stop : Text → Text → Request

unfoldable pub manage : FcmService → List Request → AppState → AppState
manage f [] s = s
manage f (start i a config ∷ requests) s = manage f requests (start_listener f i a config s).1
manage f (stop i a ∷ requests) s = manage f requests (stop_listener i a s)

-- However listeners are started and stopped, also where Google, the session or the database fails:
-- no app has two listeners, each has a task of its own, and the tasks that run are just theirs.
pub manage-TasksInv :
    (f : FcmService) (requests : List Request) (s : AppState)
    → TasksInv s
    → TasksInv (manage f requests s)
unfolding manage
manage-TasksInv f [] s v = v
manage-TasksInv f (start i a config ∷ requests) s v =
    manage-TasksInv f requests (start_listener f i a config s).1
      (start_listener-TasksInv f i a config s v)
manage-TasksInv f (stop i a ∷ requests) s v =
    manage-TasksInv f requests (stop_listener i a s) (stop_listener-TasksInv i a s v)
