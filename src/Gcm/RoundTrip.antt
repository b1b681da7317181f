-- ===== src/Gcm/RoundTrip.antt =====
-- crates/listener/src/gcm.rs: what a sender seals for a session is decrypted.
use pushcompat.Prelude.{
  ℕ, zero, suc, ◌+◌, ◌/◌, ◌%◌, ◌≤◌, ◌<◌, ◌≡◌, refl, sym, ap, ap₂, ◌∙◌, [], ◌∷◌, ◌++◌, Text, length,
  length-append, take, take-prefix, drop, drop-prefix, reverse, trim_start_matches, arith,
}
use mathlib.Core.List.{reverse-append, reverse-cons, reverse-reverse, append_assoc}
use pushcompat.Gcm.Result.{ok}
use pushcompat.Gcm.WebPush.{
  Header, from_be_bytes, check_header, split_body, read_header, is_zero, before_delimiter,
  remove_padding, key_id_len, first_or_zero,
}

-- A size of four bytes, the highest first.
abbrev pub to_be_bytes : ℕ → Text
to_be_bytes n = (n / 16777216 % 256) ∷ (n / 65536 % 256) ∷ (n / 256 % 256) ∷ (n % 256) ∷ []

from-to_be_bytes : (n : ℕ) → n < 4294967296 → from_be_bytes 0 (to_be_bytes n) ≡ n
from-to_be_bytes n h = omega arith

-- RFC 8188: salt, record size, the length of the key, the key, and the only record.
abbrev pub encode_body : Header → Text
encode_body h =
    h.salt ++ (to_be_bytes h.record_size ++ (65 ∷ (h.sender_public_key ++ h.ciphertext)))

-- What the header has to satisfy, by RFC 8188 and RFC 8291.
pub record Framed (h : Header) : Type 0 where
  pub salt : length h.salt ≡ 16
  pub key : length h.sender_public_key ≡ 65
  pub least : 18 ≤ h.record_size
  pub most : h.record_size < 4294967296
  pub tagged : 16 < length h.ciphertext
  pub one_record : length h.ciphertext < h.record_size

module _ (h : Header) (f : Framed h) where
  abbrev rest : Text
  rest = h.sender_public_key ++ h.ciphertext

  -- The body cut after `n` bytes of its prefix.
  cut :
      (n : ℕ) (front back : Text)
      → front ++ back ≡ to_be_bytes h.record_size ++ (65 ∷ rest)
      → length front + 16 ≡ n
      → drop n (encode_body h) ≡ back
  cut n front back e k =
      ap (λ bs. drop n (h.salt ++ bs)) (sym e)
      ∙ ap (drop n) (sym (append_assoc h.salt front back))
      ∙ drop-prefix n (h.salt ++ front) back (omega (arith, length-append h.salt front, f.salt))

  behind_prefix : drop 21 (encode_body h) ≡ rest
  behind_prefix = cut 21 (to_be_bytes h.record_size ++ 65 ∷ []) rest refl refl

  split-encode_body : split_body (encode_body h) ≡ h
  split-encode_body = λ i. record {
    salt = take-prefix 16 h.salt (to_be_bytes h.record_size ++ (65 ∷ rest)) f.salt i;
    record_size =
        (ap (λ bs. from_be_bytes 0 (take 4 bs))
              (cut 16 [] (to_be_bytes h.record_size ++ (65 ∷ rest)) refl refl)
            ∙ from-to_be_bytes h.record_size f.most)
          i;
    sender_public_key =
        (ap (take 65) behind_prefix ∙ take-prefix 65 h.sender_public_key h.ciphertext f.key) i;
    ciphertext =
        (ap (drop 65) behind_prefix ∙ drop-prefix 65 h.sender_public_key h.ciphertext f.key) i;
  }

  key_id_len-encode_body : key_id_len (encode_body h) ≡ 65
  key_id_len-encode_body =
      ap first_or_zero (cut 20 (to_be_bytes h.record_size) (65 ∷ rest) refl refl)

  length-encode_body : length (encode_body h) ≡ 86 + length h.ciphertext
  length-encode_body = omega (
    arith,
    length-append h.salt (to_be_bytes h.record_size ++ (65 ∷ rest)),
    length-append h.sender_public_key h.ciphertext,
    f.salt,
    f.key,
  )

  checked : check_header (86 + length h.ciphertext) 65 h ≡ ok h
  unfolding check_header
  checked = ground (arith, f.least, f.tagged, f.one_record)

  pub read-encode_body : read_header (encode_body h) ≡ ok h
  unfolding read_header
  read-encode_body =
      ap (λ n. check_header n (key_id_len (encode_body h)) (split_body (encode_body h)))
        length-encode_body
      ∙ ap₂ (check_header (86 + length h.ciphertext)) key_id_len-encode_body split-encode_body
      ∙ checked

abbrev pub zeros : ℕ → Text
zeros zero = []
zeros (suc n) = 0 ∷ zeros n

trim-zeros :
    (n : ℕ) (xs : Text) → trim_start_matches is_zero (zeros n ++ xs) ≡ trim_start_matches is_zero xs
unfolding trim_start_matches
trim-zeros zero xs = refl
trim-zeros (suc n) xs = trim-zeros n xs

zeros-snoc : (n : ℕ) → zeros n ++ 0 ∷ [] ≡ 0 ∷ zeros n
zeros-snoc zero = refl
zeros-snoc (suc n) = ap (◌∷◌ 0) (zeros-snoc n)

reverse-zeros : (n : ℕ) → reverse (zeros n) ≡ zeros n
reverse-zeros zero = refl
reverse-zeros (suc n) =
    reverse-cons 0 (zeros n) ∙ ap (λ xs. xs ++ 0 ∷ []) (reverse-zeros n) ∙ zeros-snoc n

-- The plaintext of a record: the message, the delimiter, and padding.
abbrev pub pad : ℕ → Text → Text
pad n message = message ++ (2 ∷ zeros n)

reverse-pad : (n : ℕ) (message : Text) → reverse (pad n message) ≡ zeros n ++ (2 ∷ reverse message)
reverse-pad n message =
    reverse-append message (2 ∷ zeros n)
    ∙ ap (λ xs. xs ++ reverse message)
        (reverse-cons 2 (zeros n) ∙ ap (λ xs. xs ++ 2 ∷ []) (reverse-zeros n))
    ∙ append_assoc (zeros n) (2 ∷ []) (reverse message)

pub remove_padding-pad : (n : ℕ) (message : Text) → remove_padding (pad n message) ≡ ok message
unfolding remove_padding trim_start_matches
remove_padding-pad n message =
    ap (λ xs. before_delimiter (trim_start_matches is_zero xs)) (reverse-pad n message)
    ∙ ap before_delimiter (trim-zeros n (2 ∷ reverse message))
    ∙ ap ok (reverse-reverse message)
