-- ===== src/Patcher/Dex.antt =====
-- crates/patcher/src/apk.rs: the directories of the dex files, by whether `smali_classes{i}` exists.
use pushcompat.Prelude.{ℕ, zero, suc, ◌+◌, List, [], ◌∷◌, Bool, if◌then◌else◌}

-- The numbers from `i` on, `count` of them, that have a directory.
unfoldable pub existing_from : (ℕ → Bool) → ℕ → ℕ → List ℕ
existing_from exists i zero = []
existing_from exists i (suc count) =
    let rest = existing_from exists (suc i) count in if exists i then i ∷ rest else rest

-- The first directory, `smali`, has the number 1, and is listed without a look; then 2 to 10.
unfoldable pub find_smali_dirs : (ℕ → Bool) → List ℕ
unfolding existing_from
find_smali_dirs exists = 1 ∷ existing_from exists 2 9

-- The loop from `i` on, with the highest number so far.
unfoldable pub highest_from : (ℕ → Bool) → ℕ → ℕ → ℕ → ℕ
highest_from exists i zero highest = highest
highest_from exists i (suc count) highest =
    highest_from exists (suc i) count (if exists i then i else highest)

-- 2 to 20.
unfoldable pub get_next_dex_number : (ℕ → Bool) → ℕ
unfolding highest_from
get_next_dex_number exists = highest_from exists 2 19 1 + 1
