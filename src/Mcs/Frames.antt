-- ===== src/Mcs/Frames.antt =====
-- crates/listener/src/push.rs: a frame at the front of the buffer is taken whole.
use pushcompat.Prelude.{
  ℕ, zero, suc, ◌+◌, ◌/◌, ◌≤◌, ◌<◌, ◌≡◌, refl, ap, ap₂, ◌∙◌, ◌∷◌, ◌++◌, Option, some, false, Text,
  length, length-append, take-append, drop, drop-append, arith,
}
use pushcompat.Mcs.Varint.{max_mcs_frame_bytes, ok, try_read_varint}
use pushcompat.Mcs.RoundTrip.{encode_varint, try_read_varint-encode_varint}
use pushcompat.Mcs.Stream.{
  MessageStream, done, try_from, is_close, i32_max, message_of, take_frame, after_header, scan,
  advance,
}

-- A frame: its tag, the length of its body, and the body.
abbrev pub encode_frame : ℕ → Text → Text
encode_frame tag_value body = tag_value ∷ encode_varint 5 (length body) ++ body

length-encode_varint : (width n : ℕ) → length (encode_varint width n) ≤ width
unfolding encode_varint
length-encode_varint zero n = omega arith
length-encode_varint (suc width) n = ground (arith, length-encode_varint width (n / 128))

abbrev buffered : ℕ → Text → Text → MessageStream → MessageStream
buffered tag_value body more s = record s {
  receive_buffer = tag_value ∷ encode_varint 5 (length body) ++ (body ++ more);
}

module _ {D : Type 0} (decode : Text → Option D) where
  take_frame-encoded :
      (tag_value : ℕ) (header body more : Text) (s : MessageStream)
      → s.receive_buffer ≡ tag_value ∷ header ++ (body ++ more)
      → s.last_stream_id_received < i32_max
      → take_frame decode tag_value (length body) (length header + 1) s
        ≡ done (message_of decode tag_value (try_from tag_value) body) (record {
          bytes_required = 2;
          receive_buffer = more;
          last_stream_id_received = suc s.last_stream_id_received;
        })
  unfolding take_frame
  take_frame-encoded tag_value header body more s e h =
      let offset : length header + 1 ≡ suc (length header) = omega arith in
      let behind : drop (length header + 1) s.receive_buffer ≡ body ++ more =
        ap₂ drop offset e ∙ drop-append header (body ++ more) in
      rw (behind, take-append body more, drop-append body more, take_frame) (ground arith)

  after_header-whole :
      (tag_value : ℕ) (header body more : Text) (s : MessageStream)
      → s.receive_buffer ≡ tag_value ∷ header ++ (body ++ more)
      → length body ≤ max_mcs_frame_bytes
      → length header ≤ 5
      → after_header decode tag_value s (ok (some (length body, length header + 1)))
        ≡ take_frame decode tag_value (length body) (length header + 1) s
  unfolding after_header
  after_header-whole tag_value header body more s e h k =
      let size : length s.receive_buffer ≡ suc (length header + (length body + length more)) =
        ap length e ∙ omega (arith, length-append header (body ++ more), length-append body more) in
      ground (arith, size)

  scan-frame :
      (tag_value : ℕ) (bytes : Text) (s : MessageStream)
      → is_close (try_from tag_value) ≡ false
      → scan decode (tag_value ∷ bytes) s ≡ after_header decode tag_value s (try_read_varint bytes)
  unfolding scan
  scan-frame tag_value bytes s c = rw (c, scan) refl

  -- A whole frame at the front of the buffer, with any tag but a close, comes out as the message
  -- that its body stands for; the counter rises by one and what was behind the frame is kept, as
  -- long as the body is no longer than a frame may be and the counter does not overflow.
  pub advance-encode_frame :
      (tag_value : ℕ) (body more : Text) (s : MessageStream)
      → s.receive_buffer ≡ tag_value ∷ encode_varint 5 (length body) ++ (body ++ more)
      → length body ≤ max_mcs_frame_bytes
      → is_close (try_from tag_value) ≡ false
      → s.last_stream_id_received < i32_max
      → advance decode s
        ≡ done (message_of decode tag_value (try_from tag_value) body) (record {
          bytes_required = 2;
          receive_buffer = more;
          last_stream_id_received = suc s.last_stream_id_received;
        })
  unfolding advance scan after_header
  advance-encode_frame tag_value body more s e h c k =
      let header = encode_varint 5 (length body) in
      let bytes = header ++ (body ++ more) in
      ap (λ b. scan decode b s) e
      ∙ scan-frame tag_value bytes s c
      ∙ ap (after_header decode tag_value s)
          (try_read_varint-encode_varint (length body) (body ++ more) h)
      ∙ after_header-whole tag_value header body more s e h (length-encode_varint 5 (length body))
      ∙ take_frame-encoded tag_value header body more s e k
