-- ===== src/Gcm/Http.antt =====
-- crates/listener/src/gcm.rs: the reading of a response, and the loop of `register`.
use pushcompat.Prelude.{
  unwrap_or, ℕ, zero, suc, ◌+◌, List, [], ◌∷◌, ◌++◌, Option, none, some, String, Bool, false, not,
  ◌&&◌, Text, bytes, ◌=?◌, ltb, length, strip_prefix, if◌then◌else◌,
}
use pushcompat.Gcm.Result.{
  dependency_failure, dependency_rejection, request, response, Result, ok, err, ◌>>=◌,
}

abbrev pub max_http_response_bytes : ℕ
max_http_response_bytes = 1048576

-- What a call of `chunk` gives before the end of the body: bytes, with whether memory for them could
-- be reserved, or an error of the connection.
pub data Chunk : Type 0 where
  chunk : Text → Bool → Chunk
  broken : Chunk

-- The loop of `read_response_bytes`; `rest` reads on from a longer body. Two slices in memory are
-- too short for their lengths to overflow a `usize`.
abbrev pub read_chunk : String → Text → Chunk → (Text → Result Text) → Result Text
read_chunk api body broken rest = err (response api)
read_chunk api body (chunk more reserved) rest =
    if ltb max_http_response_bytes (length body + length more)
    then err (dependency_failure api "response body is too large")
    else if not reserved
    then err (dependency_failure api "response body allocation failed")
    else rest (body ++ more)

unfoldable pub read_chunks : String → List Chunk → Text → Result Text
read_chunks api [] body = ok body
read_chunks api (c ∷ cs) body = read_chunk api body c (read_chunks api cs)

unfoldable pub read_response_bytes : String → List Chunk → Result Text
unfolding read_chunks
read_response_bytes api chunks = read_chunks api chunks []

-- `String::from_utf8` is a parameter.
unfoldable pub read_response_text : (Text → Bool) → String → List Chunk → Result Text
unfolding read_response_bytes
read_response_text is_utf8 api chunks = do
  body ← read_response_bytes api chunks
  (if is_utf8 body then ok body else err (dependency_failure api "response body is not UTF-8"))

-- What a post meets: an error of the request, or a response.
pub data Posted : Type 0 where
  unsent : Posted
  responded : List Chunk → Posted

abbrev pub api_name : String
api_name = "GCM registration"

abbrev pub max_retries : ℕ
max_retries = 15

abbrev pub retry_delay_ms : ℕ
retry_delay_ms = 250

unfoldable pub text_of : (Text → Bool) → Posted → Result Text
unfolding read_response_text
text_of is_utf8 unsent = err (request api_name)
text_of is_utf8 (responded chunks) = read_response_text is_utf8 api_name chunks

-- What a text says: a token, an error, or neither.
pub data Verdict : Type 0 where
  token : Text → Verdict
  rejected : Text → Verdict
  malformed : Verdict

abbrev pub other_than_token : Option Text → Verdict
other_than_token none = malformed
other_than_token (some error) = rejected error

abbrev pub token_or : Option Text → Text → Verdict
token_or (some t) text = token t
token_or none text = other_than_token (strip_prefix (bytes "Error=") text)

unfoldable pub verdict : Text → Verdict
verdict text = token_or (strip_prefix (bytes "token=") text) text

abbrev pub phone_registration_error : Text
phone_registration_error = bytes "PHONE_REGISTRATION_ERROR"

-- The reply to a text where no attempt is left after it.
abbrev pub conclude : Verdict → Result Text
conclude (token t) = ok t
conclude (rejected error) = err (dependency_rejection api_name error)
conclude malformed = err (dependency_failure api_name "malformed response")

abbrev pub is_transient : Verdict → Bool
is_transient (token t) = false
is_transient (rejected error) = error =? phone_registration_error
is_transient malformed = false

-- One attempt, with `left` more after it, and `rest`, what they come to: the result with the delays
-- slept.
abbrev pub attempt : ℕ → Result Text × List ℕ → Result Text → Result Text × List ℕ
attempt left rest (err e) = (err e, [])
attempt left rest (ok text) =
    if is_transient (verdict text) && ltb 0 left
    then (rest.0, retry_delay_ms ∷ rest.1)
    else (conclude (verdict text), [])

-- The loop of `register` with `left` attempts left, by the responses to come. It goes on only after
-- the one error that is `last_error` then.
unfoldable pub register_loop : (Text → Bool) → ℕ → Option Text → (ℕ → Posted) → Result Text × List ℕ
unfolding text_of verdict
register_loop is_utf8 zero last_error responses =
    (err (dependency_rejection api_name (unwrap_or last_error (bytes "max retries exceeded"))), [])
register_loop is_utf8 (suc left) last_error responses =
    attempt left
      (register_loop is_utf8 left (some phone_registration_error) (λ k. responses (suc k)))
      (text_of is_utf8 (responses 0))

unfoldable pub register : (Text → Bool) → (ℕ → Posted) → Result Text × List ℕ
unfolding register_loop
register is_utf8 responses = register_loop is_utf8 max_retries none responses
