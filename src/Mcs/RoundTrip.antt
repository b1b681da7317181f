-- ===== src/Mcs/RoundTrip.antt =====
-- crates/listener/src/push.rs: the length of a frame, as it is written by a protobuf library and
-- read by `try_read_varint`.
use pushcompat.Prelude.{
  ℕ, zero, suc, ◌+◌, ◌/◌, ◌%◌, ◌≤◌, ◌≡◌, [], ◌∷◌, ◌++◌, some, Text, length, ltb, if◌then◌else◌,
  arith,
}
use pushcompat.Mcs.Varint.{
  ok, max_mcs_frame_bytes, add_group, complete, varint_loop, try_read_varint,
}

-- The base-128 encoding, lowest seven bits first, in at most `width` bytes.
unfoldable pub encode_varint : ℕ → ℕ → Text
encode_varint zero n = []
encode_varint (suc width) n =
    let rest = encode_varint width (n / 128) in if ltb n 128 then n ∷ [] else (n % 128 + 128) ∷ rest

-- A length that a frame may have, written as a varint with anything behind it, is read as that
-- length, with the offset just behind the tag and the varint.
pub try_read_varint-encode_varint :
    (n : ℕ) (more : Text)
    → n ≤ max_mcs_frame_bytes
    → try_read_varint (encode_varint 5 n ++ more) ≡ ok (some (n, length (encode_varint 5 n) + 1))
unfolding try_read_varint varint_loop encode_varint add_group complete
try_read_varint-encode_varint n more h = ground arith
