-- ===== src/Fcm/Elsewhere.antt =====
-- crates/bridge/src/db.rs, as the tasks beside a listener call it: which calls leave the history of
-- acknowledged ids of an app.
use pushcompat.Prelude.{◌≡◌, false}
use pushcompat.Db.AckBounds.{step-AcksBounded}
use pushcompat.Db.Calls.{Call, step}
use pushcompat.Bridge.State.{AppState}
use pushcompat.Fcm.Listener.{Config}
use pushcompat.Fcm.Refinement.{Spares}
use pushcompat.Db.Untouched.{touches, step_other}

-- What another task does with one call of the database.
abbrev pub calls_database : Call → AppState → AppState
calls_database c s = record s { tables = step c s.tables }

-- Any call that does not touch the history of the app is one that a listener's memory allows for.
pub step-Spares :
    (c : Config) (call : Call)
    → touches c.install_id c.app_id call ≡ false
    → Spares c (calls_database call)
step-Spares c call h =
    λ s b. (step_other c.install_id c.app_id call s.tables h, step-AcksBounded call s.tables b)
