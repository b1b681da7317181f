-- ===== src/Mcs/Varint.antt =====
-- crates/listener/src/push.rs: `try_read_varint`. A `usize` has 64 bits, a byte is below 256, and
-- `byte & 0x7F` is `byte % 128`.
use pushcompat.Prelude.{
  ℕ, zero, suc, ◌+◌, ◌*◌, ◌%◌, ◌^◌, [], ◌∷◌, Option, none, some, Text, ltb, if◌then◌else◌,
}

pub data Error : Type 0 where
  overflowed too_large invalid_varint : Error

pub data Result {ℓ} (A : Type ℓ) : Type ℓ where
  ok : A → Result A
  err : Error → Result A

abbrev pub max_mcs_frame_bytes : ℕ
max_mcs_frame_bytes = 4194304

abbrev pub usize_mod : ℕ
usize_mod = 2 ^ 64

-- `checked_add`.
abbrev pub checked_add : ℕ → ℕ → Option ℕ
checked_add a b = if ltb (a + b) usize_mod then some (a + b) else none

-- The sum after the byte at `index`, if it fits: `checked_mul`, `checked_shl` and `checked_add`.
-- The shift is at most 28, and a shift drops no bit of seven.
unfoldable pub add_group : ℕ → ℕ → ℕ → Option ℕ
add_group index result byte = checked_add result (byte % 128 * 2 ^ (index * 7) % usize_mod)

-- A complete length, with the offset of the body behind the tag.
unfoldable pub complete : ℕ → ℕ → Result (Option (ℕ × ℕ))
complete index result =
    if ltb max_mcs_frame_bytes result then err too_large else ok (some (result, index + 2))

-- `left` counts the rounds of the loop that are to come, and `index` those that are over.
unfoldable pub varint_loop : ℕ → ℕ → ℕ → Text → Result (Option (ℕ × ℕ))
unfolding add_group complete
varint_loop zero index result bytes = err invalid_varint
varint_loop (suc left) index result [] = ok none
varint_loop (suc left) index result (byte ∷ bytes) = elim (add_group index result byte) [
  | none ↦ err overflowed
  | some sum ↦ if ltb byte 128 then complete index sum else varint_loop left (suc index) sum bytes
]

-- `none` until the length is complete.
unfoldable pub try_read_varint : Text → Result (Option (ℕ × ℕ))
unfolding varint_loop
try_read_varint bytes = varint_loop 5 0 0 bytes
