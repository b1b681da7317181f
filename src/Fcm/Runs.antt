-- ===== src/Fcm/Runs.antt =====
-- crates/bridge/src/fcm.rs: what every event, every login and every wait of a listener keeps, its
-- whole run keeps.
use pushcompat.Prelude.{List, [], ◌∷◌, All}
use pushcompat.Bridge.State.{AppState}
use pushcompat.Fcm.Listener.{
  Config, Event, stop, next, elsewhere, Flow, listening, reconnect, stopped, World, on_event, go_on,
  listen, Attempt, stop_pending, connection_failed, connected, log_in, meanwhile, wait, on_attempt,
  try_again, outer_loop,
}

-- What other tasks do has to satisfy `Ok`.
abbrev pub EventOk : ((AppState → AppState) → Type 0) → Event → Type 0
EventOk Ok stop = Unit
EventOk Ok (next i stream_id written) = Unit
EventOk Ok (elsewhere f) = Ok f

abbrev pub AttemptOk : ((AppState → AppState) → Type 0) → Attempt → Type 0
AttemptOk Ok stop_pending = Unit
AttemptOk Ok (connection_failed f) = Ok f
AttemptOk Ok (connected es f) = All (EventOk Ok) es × Ok f

module _ (c : Config) (I : World → Type 0) (Ok : (AppState → AppState) → Type 0)
    (event : (e : Event) (w : World) → EventOk Ok e → I w → I (on_event c e w).1)
    (login : (w : World) → I w → I (log_in w))
    (waiting : (f : AppState → AppState) (w : World) → Ok f → I w → I (meanwhile f w)) where
  abbrev Reaches : Flow × World → Type 0
  Reaches x = I x.1

  go_on-Reaches :
      (rest : World → Flow × World) (x : Flow × World)
      → ((w : World) → I w → Reaches (rest w))
      → Reaches x
      → Reaches (go_on rest x)
  go_on-Reaches rest (listening, w) f h = f w h
  go_on-Reaches rest (reconnect, w) f h = h
  go_on-Reaches rest (stopped, w) f h = h

  listen-Reaches :
      (es : List Event) (w : World) → All (EventOk Ok) es → I w → Reaches (listen c es w)
  unfolding listen
  listen-Reaches [] w spares h = h
  listen-Reaches (e ∷ es) w (spares, more) h =
      go_on-Reaches (listen c es) (on_event c e w) (λ v. listen-Reaches es v more)
        (event e w spares h)

  wait-Reaches :
      (f : AppState → AppState) (x : Flow × World) → Ok f → Reaches x → Reaches (wait f x)
  wait-Reaches f (listening, w) spares h = h
  wait-Reaches f (reconnect, w) spares h = waiting f w spares h
  wait-Reaches f (stopped, w) spares h = h

  on_attempt-Reaches : (a : Attempt) (w : World) → AttemptOk Ok a → I w → Reaches (on_attempt c a w)
  unfolding on_attempt
  on_attempt-Reaches stop_pending w spares h = h
  on_attempt-Reaches (connection_failed f) (l, s) spares h =
      waiting f (log_in (l, s)) spares (login (l, s) h)
  on_attempt-Reaches (connected es f) (l, s) (quiet, spares) h =
      wait-Reaches f (listen c es (log_in (l, s))) spares
        (listen-Reaches es (log_in (l, s)) quiet (login (l, s) h))

  try_again-Reaches :
      (rest : World → Flow × World) (x : Flow × World)
      → ((w : World) → I w → Reaches (rest w))
      → Reaches x
      → Reaches (try_again rest x)
  try_again-Reaches rest (listening, w) f h = h
  try_again-Reaches rest (reconnect, w) f h = f w h
  try_again-Reaches rest (stopped, w) f h = h

  pub outer_loop-Reaches :
      (attempts : List Attempt) (w : World)
      → All (AttemptOk Ok) attempts
      → I w
      → Reaches (outer_loop c attempts w)
  unfolding outer_loop
  outer_loop-Reaches [] w spares h = h
  outer_loop-Reaches (a ∷ attempts) w (spares, more) h =
      try_again-Reaches (outer_loop c attempts) (on_attempt c a w)
        (λ v. outer_loop-Reaches attempts v more) (on_attempt-Reaches a w spares h)
