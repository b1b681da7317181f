-- ===== src/Db/Acks.antt =====
-- crates/bridge/src/db.rs: the table `acked_messages`, newest row first.
use pushcompat.Prelude.{
  ℕ, zero, suc, List, [], ◌∷◌, Bool, ◌&&◌, Text, ◌=?◌, any, select, take, map, if◌then◌else◌,
}
use pushcompat.Db.Tables.{Tables, AckedMessage, is_pair}

-- The trim's LIMIT, and the length of the list that a login carries.
abbrev pub max_ack_history : ℕ
max_ack_history = 500

unfoldable pub of_app : Text → Text → AckedMessage → Bool
of_app install_id app_id row = is_pair install_id app_id row.install_id row.app_id

unfoldable pub is_ack : Text → Text → Text → AckedMessage → Bool
unfolding of_app
is_ack install_id app_id pid row = of_app install_id app_id row && row.persistent_id =? pid

-- The rows that fail the test, and the first `n` that pass it.
unfoldable pub keep_recent {ℓ} : {A : Type ℓ} → (A → Bool) → ℕ → List A → List A
keep_recent p n [] = []
keep_recent p zero (x ∷ xs) = let rest = keep_recent p zero xs in if p x then rest else x ∷ rest
keep_recent p (suc n) (x ∷ xs) = x ∷ keep_recent p (if p x then n else suc n) xs

-- INSERT OR IGNORE against the primary key.
unfoldable pub with_ack : Text → Text → Text → List AckedMessage → List AckedMessage
unfolding is_ack
with_ack install_id app_id pid acks =
    if any (is_ack install_id app_id pid) acks
    then acks
    else record { install_id = install_id; app_id = app_id; persistent_id = pid } ∷ acks

-- The last two statements of `enqueue_fcm_message`: note the id, and keep the 500 newest of the app.
unfoldable pub note_ack : Text → Text → Text → List AckedMessage → List AckedMessage
unfolding with_ack keep_recent
note_ack install_id app_id pid acks =
    keep_recent (of_app install_id app_id) max_ack_history (with_ack install_id app_id pid acks)

-- Newest first.
unfoldable pub recent_acks : Text → Text → ℕ → Tables → List Text
unfolding of_app
recent_acks install_id app_id limit t =
    take limit (map (λ row. row.persistent_id) (select (of_app install_id app_id) t.acked_messages))
