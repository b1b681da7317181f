-- ===== src/Tests/OfGcm.antt =====
-- The registration with Google and the decryption on small inputs.
use pushcompat.Prelude.{
  ℕ, zero, suc, Bool, ◌≤◌, ◌≡◌, ◌↔◌, refl, sym, ap, [], ◌∷◌, ◌++◌, List, some, true, Text, bytes,
  length, length-append, take, drop, drop-prefix, reverse, inr, ◌∙◌, arith, strip_prefix, ◌=?◌,
}
use mathlib.Core.List.{append_assoc}
use mathlib.Core.Option.{some-injective}
use pushcompat.Gcm.Result.{ok}
use pushcompat.Gcm.WebPush.{Primitives, Keys}
use pushcompat.Gcm.RoundTrip.{zeros}
use pushcompat.Gcm.Sealed.{Sealing, PrimitivesLaws, Sender, web_push, Session, Sends}
use pushcompat.Gcm.Session.{
  DeviceSessionState, Encodings, Decoders, CheckinReply, replied, Randomness, decrypt, checkin,
  refresh, read_checkin, generate_keys, draw_key, decompressed,
}
use pushcompat.Gcm.Usable.{
  EncodingsLaws, Holds, Fills, Usable, Kept, decrypt-web_push, checkin-Usable, refresh-Kept,
}
use pushcompat.Gcm.Http.{
  Chunk, chunk, Posted, responded, text_of, register, read_response_bytes, read_response_text,
  read_chunks, retry_delay_ms, max_http_response_bytes, verdict,
}
use pushcompat.Gcm.Retries.{
  first_final, final, repeat, register-first_final, whole, read_response_bytes_iff,
}

-- A text of the length of a digest that shows the end of the message and the start of the key.
abbrev digest : Text → Text → Text
digest key m = take 32 (reverse m ++ (take 8 key ++ zeros 32))

length-take-zeros : (n k : ℕ) (xs : Text) → n ≤ k → length (take n (xs ++ zeros k)) ≡ n
length-take-zeros zero k xs h = refl
length-take-zeros (suc n) zero xs h = ground arith
length-take-zeros (suc n) (suc k) [] h = ap suc (length-take-zeros n k [] (omega arith))
length-take-zeros (suc n) (suc k) (x ∷ xs) h = ap suc (length-take-zeros n (suc k) xs (omega arith))

length-digest : (key m : Text) → length (digest key m) ≡ 32
length-digest key m =
    ap (λ xs. length (take 32 xs)) (sym (append_assoc (reverse m) (take 8 key) (zeros 32)))
    ∙ length-take-zeros 32 32 (reverse m ++ take 8 key) (omega arith)

-- Encryption that shows the key and the nonce in its tag.
abbrev sealing : Sealing
sealing = record {
  hmac = digest;
  encrypt = λ key nonce m. take 16 (take 8 key ++ (take 8 nonce ++ zeros 16)) ++ m;
}

-- Primitives with one public key, and a shared secret.
abbrev primitives : Primitives
primitives = record {
  public_of = λ b. some (zeros 65);
  is_public_key = λ b. true;
  diffie_hellman = λ a b. 5 ∷ [];
  hkdf_expand = λ salt key info n. some (take n (digest (digest salt key) (info ++ 1 ∷ [])));
  gcm_decrypt = λ key nonce c. some (drop 16 c);
}

one_key : (b : Text) → some (zeros 65) ≡ some b → length b ≡ 65
one_key b e = sym (ap length (some-injective (zeros 65) b e))

abbrev tag : Text → Text → Text
tag key nonce = take 16 (take 8 key ++ (take 8 nonce ++ zeros 16))

length-tag : (key nonce : Text) → length (tag key nonce) ≡ 16
length-tag key nonce =
    ap (λ xs. length (take 16 xs)) (sym (append_assoc (take 8 key) (take 8 nonce) (zeros 16)))
    ∙ length-take-zeros 16 16 (take 8 key ++ take 8 nonce) (omega arith)

primitives-PrimitivesLaws : PrimitivesLaws primitives sealing
primitives-PrimitivesLaws = record {
  is_public_key-public_of = λ a pa e. (refl, one_key pa e);
  diffie_hellman_comm = λ a b pa pb e f. refl;
  gcm_decrypt-encrypt =
      λ key nonce m. ap some (drop-prefix 16 (tag key nonce) m (length-tag key nonce));
  length-encrypt =
      λ key nonce m. omega (arith, length-append (tag key nonce) m, length-tag key nonce);
  hkdf_expand-hmac = λ salt key info n h. refl;
  length-hmac = length-digest;
}

abbrev encodings : Encodings
encodings = record { base64_decode = some; base64url_encode = λ b. b; base64url_decode = some }

encodings-EncodingsLaws : EncodingsLaws encodings (λ b. b)
encodings-EncodingsLaws = record {
  base64_decode-base64_encode = λ b. refl;
  base64url_decode-base64url_encode = λ b. refl;
}

abbrev keys : Keys
keys = record { private_key = zeros 32; public_key = zeros 65; auth_secret = zeros 16 }

keys-Session : Session primitives keys
keys-Session = record { private_len = refl; auth_len = refl; pair = refl }

abbrev held : DeviceSessionState
held = record {
  android_id = 7;
  security_token = 8;
  private_key = some (zeros 32);
  public_key = some (zeros 65);
  auth_secret = some (zeros 16);
}

held-Holds : Holds encodings keys held
held-Holds = record { private_key = refl; public_key = refl; auth_secret = refl }

abbrev sender : Sender
sender = record {
  private_key = zeros 32;
  public_key = zeros 65;
  salt = zeros 16;
  record_size = 4096;
  padding = 3;
}

sender-Sends : Sends primitives sender (1 ∷ 2 ∷ [])
sender-Sends = record { pair = refl; salt_len = refl; fits = omega arith; size = omega arith }

decrypt-web_push_example :
    decrypt primitives encodings held
      (web_push primitives sealing sender (zeros 65) (zeros 16) (1 ∷ 2 ∷ []))
    ≡ ok (1 ∷ 2 ∷ [])
decrypt-web_push_example =
    decrypt-web_push primitives encodings sealing (λ b. b) keys held sender (1 ∷ 2 ∷ [])
      primitives-PrimitivesLaws encodings-EncodingsLaws keys-Session held-Holds sender-Sends

abbrev decoders : Decoders
decoders = record {
  gunzip = some;
  from_reader = λ b. some (record { android_id = some 7; security_token = some 8 });
}

abbrev reply : CheckinReply
reply = replied true (chunk (1 ∷ []) true ∷ chunk (2 ∷ []) true ∷ [])

abbrev random : Randomness
random = record { key_draws = some (zeros 32) ∷ []; secret_draw = some (zeros 16) }

random-Fills : Fills random
random-Fills = record { keys = (refl, tt); secret = refl }

checked_in : checkin primitives encodings decoders reply random ≡ some (ok held)
unfolding checkin read_checkin generate_keys draw_key decompressed read_response_bytes read_chunks
checked_in = refl

checkin-Usable_example : Usable primitives encodings held
checkin-Usable_example =
    checkin-Usable primitives encodings decoders reply random held random-Fills checked_in

refreshed : refresh primitives encodings decoders reply random held ≡ some (ok held)
unfolding refresh read_checkin generate_keys draw_key decompressed read_response_bytes read_chunks
refreshed = refl

held-Usable : Usable primitives encodings held
held-Usable = (keys, keys-Session, held-Holds)

refresh-Kept_example : Kept primitives encodings held held
refresh-Kept_example =
    refresh-Kept primitives encodings decoders reply random held held random-Fills (inr held-Usable)
      refreshed

-- Two transient errors, then a token.
abbrev responses : ℕ → Posted
responses zero = responded (chunk (bytes "Error=PHONE_REGISTRATION_ERROR") true ∷ [])
responses (suc zero) = responded (chunk (bytes "Error=PHONE_REGISTRATION_ERROR") true ∷ [])
responses (suc (suc k)) = responded (chunk (bytes "token=") true ∷ chunk (bytes "abc") true ∷ [])

abbrev anything : Text → Bool
anything b = true

third : first_final 14 (λ k. text_of anything (responses k)) ≡ 2
unfolding first_final text_of read_response_text read_response_bytes read_chunks verdict
    strip_prefix ◌=?◌
third = refl

register-first_final_example :
    (register anything responses ≡ (
      final (text_of anything (responses (first_final 14 (λ k. text_of anything (responses k))))),
      repeat (first_final 14 (λ k. text_of anything (responses k))) retry_delay_ms,
    ))
    × (first_final 14 (λ k. text_of anything (responses k)) ≤ 14)
register-first_final_example = register-first_final anything responses

abbrev read : Text
read = 1 ∷ 2 ∷ []

abbrev chunks : List Chunk
chunks = chunk (1 ∷ []) true ∷ chunk (2 ∷ []) true ∷ []

read_response_bytes_iff_example :
    (read_response_bytes "GCM checkin" chunks ≡ ok read)
    ↔ ((whole chunks ≡ some read) × (length read ≤ max_http_response_bytes))
read_response_bytes_iff_example = read_response_bytes_iff "GCM checkin" chunks read
