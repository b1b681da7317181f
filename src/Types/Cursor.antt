-- ===== src/Types/Cursor.antt =====
-- crates/bridge/src/types.rs: `Cursor`.
use pushcompat.Prelude.{ℕ, ltb, if◌then◌else◌}
use pushcompat.Prelude.Int.{ℤ, pos, negsuc}

-- `Cursor::clamp`: into the range from 0 to the highest id.
unfoldable pub clamp : ℤ → ℕ → ℕ
clamp (pos n) maximum = if ltb maximum n then maximum else n
clamp (negsuc n) maximum = 0
