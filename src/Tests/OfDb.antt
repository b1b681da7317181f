-- ===== src/Tests/OfDb.antt =====
-- crates/bridge/src/db.rs: the database on small histories.
use pushcompat.Prelude.{
  ◌≡◌, ◌≢◌, refl, ◌⊎◌, List, [], ◌∷◌, none, some, true, false, bytes, delete, ◌=?◌, arith,
}
use pushcompat.Types.Transport.{web_socket, unified_push}
use pushcompat.Db.Tables.{Tables, empty_tables}
use pushcompat.Db.Calls.{Call, enqueue_fcm, elapse, run}
use pushcompat.Db.Installations.{stored_hash, claim_installation, installation_secret, has_id}
use pushcompat.Db.Connectors.{
  register_unified_push, endpoint, delete_stale_unified_push_registrations, has_connector,
  has_endpoint,
}
use pushcompat.Db.Enqueue.{skipped, enqueue_fcm_message, is_acked}
use pushcompat.Db.Acks.{is_ack}
use pushcompat.Db.Invariant.History.{WellFormed, run-WellFormed, empty-WellFormed}
use pushcompat.Db.Owners.{run-stored_hash, claim_installation_outcome}
use pushcompat.Db.AckBounds.{AcksBounded, run-AcksBounded}
use pushcompat.Db.Redelivered.{redelivery_skipped}
use pushcompat.Db.Endpoints.{Leads, get_unified_push_endpoint-register_unified_push}
use pushcompat.Db.Retained.{is_stale, delete_stale-rows}
use pushcompat.Tests.Data.{install, app, secret, calls}

abbrev filled : Tables
filled = run calls empty_tables

run-WellFormed_example : WellFormed filled
run-WellFormed_example = run-WellFormed calls empty_tables empty-WellFormed

empty-AcksBounded : AcksBounded empty_tables
empty-AcksBounded i a = omega arith

run-AcksBounded_example : AcksBounded filled
run-AcksBounded_example = run-AcksBounded calls empty_tables empty-AcksBounded

claimed : Tables
claimed = (claim_installation install secret secret empty_tables).1

claimed_hash : stored_hash install claimed ≡ some secret
unfolding claimed stored_hash claim_installation has_id ◌=?◌
claimed_hash = refl

run-stored_hash_example : stored_hash install (run calls claimed) ≡ some secret
run-stored_hash_example = run-stored_hash calls install secret claimed claimed_hash

claim_installation_outcome_example :
    (((claim_installation install secret secret filled).0 ≡ true)
      × ((stored_hash install filled ≡ none) ⊎ (stored_hash install filled ≡ some secret))
      × (stored_hash install (claim_installation install secret secret filled).1 ≡ some secret)
      × (installation_secret install (claim_installation install secret secret filled).1
          ≡ some secret))
    ⊎ (((claim_installation install secret secret filled).0 ≡ false)
        × (stored_hash install filled ≢ none)
        × (stored_hash install filled ≢ some secret)
        × ((claim_installation install secret secret filled).1 ≡ filled))
claim_installation_outcome_example = claim_installation_outcome install secret secret filled

-- Two other messages, one for the app and one for another, between a message and its redelivery.
abbrev between : List Call
between =
    enqueue_fcm install app web_socket (some (bytes "three")) (bytes "payload")
    ∷ elapse 10
    ∷ enqueue_fcm install (bytes "another") web_socket none (bytes "payload")
    ∷ []

two_is_new : is_acked install app (some (bytes "two")) empty_tables ≡ false
unfolding is_acked is_ack
two_is_new = refl

redelivery_skipped_example :
    let u =
      run between
        (enqueue_fcm_message install app web_socket
          (some (bytes "two"))
          (bytes "payload")
          empty_tables).1 in
    enqueue_fcm_message install app unified_push (some (bytes "two")) (bytes "other") u
    ≡ (skipped, u)
unfolding ◌=?◌
redelivery_skipped_example =
    redelivery_skipped install app (bytes "two") web_socket unified_push (bytes "payload")
      (bytes "other") empty_tables between empty-AcksBounded two_is_new refl (omega arith)

given :
    (register_unified_push install app (bytes "connector") (bytes "candidate") none empty_tables).0
    ≡ endpoint (bytes "candidate")
unfolding register_unified_push has_connector has_endpoint ◌=?◌
given = refl

get_unified_push_endpoint-register_unified_push_example :
    Leads
      (bytes "candidate")
      install
      app
      (bytes "connector")
      none
      (register_unified_push install app
        (bytes "connector")
        (bytes "candidate")
        none
        empty_tables).1
get_unified_push_endpoint-register_unified_push_example =
    get_unified_push_endpoint-register_unified_push install app (bytes "connector")
      (bytes "candidate") (bytes "candidate") none empty_tables empty-WellFormed given

delete_stale-rows_example :
    (delete_stale_unified_push_registrations install
      (bytes "other" ∷ [])
      filled).1.unified_push_registrations
    ≡ delete (is_stale install (bytes "other" ∷ [])) filled.unified_push_registrations
delete_stale-rows_example = delete_stale-rows install (bytes "other" ∷ []) filled
