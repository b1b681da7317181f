-- ===== src/Types/InstallId.antt =====
-- crates/bridge/src/types.rs: `InstallId`.
use pushcompat.Prelude.{
  ℕ, Bool, ◌&&◌, ◌||◌, Option, none, some, Text, length, all, leb, if◌then◌else◌, is_ascii_digit,
}

abbrev pub min_install_id_len : ℕ
min_install_id_len = 16

abbrev pub max_install_id_len : ℕ
max_install_id_len = 64

-- A decimal digit, or `a` to `f`.
pub is_id_byte : ℕ → Bool
unfolding is_ascii_digit
is_id_byte b = is_ascii_digit b || (leb b'a' b && leb b b'f')

-- `TryFrom<String>`: 16 to 64 bytes, each a lowercase hexadecimal digit. `none` is `InvalidInstallId`.
unfoldable pub try_from : Text → Option Text
unfolding is_id_byte
try_from value =
    if (leb min_install_id_len (length value) && leb (length value) max_install_id_len)
      && all is_id_byte value
    then some value
    else none
