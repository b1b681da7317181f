-- ===== src/Mcs/Stream.antt =====
-- crates/listener/src/push.rs: `MessageTag` and `MessageStream::poll_next`.
use pushcompat.Prelude.{
  ℕ, zero, suc, List, [], ◌∷◌, ◌++◌, Option, none, some, Bool, true, false, Text, ◌==◌, leb, length,
  take, drop, if◌then◌else◌,
}
use pushcompat.Mcs.Varint.{Error, overflowed, Result, ok, err, checked_add, try_read_varint}

pub data MessageTag : Type 0 where
  heartbeat_ping heartbeat_ack login_request login_response close message_stanza : MessageTag
  presence_stanza iq_stanza data_message_stanza batch_presence_stanza : MessageTag
  stream_error_stanza http_request http_response bind_account_request : MessageTag
  bind_account_response talk_metadata : MessageTag

-- The discriminants are 0 to 15, in the order of the declaration.
abbrev pub tags : List MessageTag
tags =
    heartbeat_ping ∷ heartbeat_ack ∷ login_request ∷ login_response ∷ close ∷ message_stanza
    ∷ presence_stanza ∷ iq_stanza ∷ data_message_stanza ∷ batch_presence_stanza
    ∷ stream_error_stanza ∷ http_request ∷ http_response ∷ bind_account_request
    ∷ bind_account_response ∷ talk_metadata ∷ []

abbrev pub nth {ℓ} : {A : Type ℓ} → List A → ℕ → Option A
nth [] i = none
nth (x ∷ xs) zero = some x
nth (x ∷ xs) (suc i) = nth xs i

-- `TryFrom<u8>`.
unfoldable pub try_from : ℕ → Option MessageTag
try_from value = nth tags value

abbrev pub is_close : Option MessageTag → Bool
is_close (some close) = true
is_close _ = false

-- `bytes_required` and `receive_buffer`; the counter is an i32.
pub record MessageStream : Type 0 where
  pub bytes_required : ℕ
  pub receive_buffer : Text
  pub last_stream_id_received : ℕ

abbrev pub new : MessageStream
new = record { bytes_required = 2; receive_buffer = []; last_stream_id_received = 0 }

-- `D` is the decoded data message.
pub data Message (D : Type 0) : Type 0 where
  heartbeat : Message D
  data_message : D → Message D
  other : ℕ → Text → Message D

pub data StreamError : Type 0 where
  framing : Error → StreamError
  stream_id_overflowed decode_failed socket : StreamError

-- What `poll_next` is ready with.
pub data Item (D : Type 0) : Type 0 where
  item : Message D → Item D
  error : StreamError → Item D
  ended : Item D

-- The buffer is dropped, and the stream ends at its next empty read.
abbrev pub reset : MessageStream → MessageStream
reset s = record s { bytes_required = 0; receive_buffer = [] }

abbrev pub i32_max : ℕ
i32_max = 2147483647

-- Either something to return, or a wait for `bytes_required` bytes.
pub data Progress (D : Type 0) : Type 0 where
  done : Item D → MessageStream → Progress D
  wait : MessageStream → Progress D

-- `decode` is `DataMessage::decode`.
module _ {D : Type 0} (decode : Text → Option D) where
  unfoldable pub message_of : ℕ → Option MessageTag → Text → Item D
  message_of tag_value (some data_message_stanza) body = elim (decode body) [
    | none ↦ error decode_failed
    | some m ↦ item (data_message m)
  ]
  message_of tag_value (some heartbeat_ping) body = item heartbeat
  message_of tag_value _ body = item (other tag_value body)

  -- A whole frame leaves the buffer.
  unfoldable pub take_frame : ℕ → ℕ → ℕ → MessageStream → Progress D
  unfolding message_of
  take_frame tag_value size offset s =
      if leb i32_max s.last_stream_id_received
      then done (error stream_id_overflowed) (reset s)
      else done
          (message_of tag_value (try_from tag_value) (take size (drop offset s.receive_buffer)))
          (record {
            bytes_required = 2;
            receive_buffer = drop size (drop offset s.receive_buffer);
            last_stream_id_received = suc s.last_stream_id_received;
          })

  -- What the length field of the first frame says.
  unfoldable pub after_header : ℕ → MessageStream → Result (Option (ℕ × ℕ)) → Progress D
  unfolding take_frame
  after_header tag_value s (err e) = done (error (framing e)) (reset s)
  after_header tag_value s (ok none) = elim (checked_add (length s.receive_buffer) 1) [
    | none ↦ done (error (framing overflowed)) (reset s)
    | some bytes_required ↦ wait (record s { bytes_required = bytes_required })
  ]
  after_header tag_value s (ok (some (size, offset))) = elim (checked_add offset size) [
    | none ↦ done (error (framing overflowed)) (reset s)
    | some bytes_required ↦
        if leb bytes_required (length s.receive_buffer)
        then take_frame tag_value size offset s
        else wait (record s { bytes_required = bytes_required })
  ]

  -- The outer loop's body, up to the reads.
  unfoldable pub scan : Text → MessageStream → Progress D
  unfolding after_header
  scan [] s = if s.bytes_required == 0 then done ended s else wait s
  scan (tag_value ∷ bytes) s =
      if is_close (try_from tag_value)
      then done ended (reset s)
      else after_header tag_value s (try_read_varint bytes)

  unfoldable pub advance : MessageStream → Progress D
  unfolding scan
  advance s = scan s.receive_buffer s

  -- What `read_buf` gives: bytes, none of them at the end of the input, or an error.
  pub data Read : Type 0 where
    bytes_read : Text → Read
    read_failed : Read

  -- `none` is `Poll::Pending`: the reads at hand are used up.
  abbrev pub Poll : Type 0
  Poll = Option (Item D) × MessageStream

  abbrev pub append_read : Text → MessageStream → MessageStream
  append_read bs s = record s { receive_buffer = s.receive_buffer ++ bs }

  -- The inner loop, and the outer one around it, by the reads to come.
  unfoldable pub fill : List Read → MessageStream → Poll × List Read
  unfolding advance
  fill [] s = ((none, s), [])
  fill (read_failed ∷ reads) s = ((some (error socket), reset s), reads)
  fill (bytes_read [] ∷ reads) s = ((some ended, reset s), reads)
  fill (bytes_read (b ∷ bs) ∷ reads) s =
      let s' = append_read (b ∷ bs) s in
      let more = fill reads s' in
      elim (leb s'.bytes_required (length s'.receive_buffer)) [
        | false ↦ more
        | true ↦ elim (advance s') [
          | done i s'' ↦ ((some i, s''), reads)
          | wait s'' ↦ fill reads s''
        ]
      ]

  unfoldable pub poll_next : List Read → MessageStream → Poll × List Read
  unfolding fill
  poll_next reads s = elim (advance s) [
    | done i s' ↦ ((some i, s'), reads)
    | wait s' ↦ fill reads s'
  ]
