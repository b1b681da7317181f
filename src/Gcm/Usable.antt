-- ===== src/Gcm/Usable.antt =====
-- crates/listener/src/gcm.rs: a session that a check-in makes decrypts what is sealed for it, and so
-- does the session after it is refreshed.
use pushcompat.Prelude.{
  ℕ, ◌≡◌, refl, sym, subst, ◌∙◌, ◌⊎◌, inl, inr, List, [], ◌∷◌, Option, none, some, Text, length,
  All,
}
use pushcompat.Gcm.Result.{Result, ok, err}
use pushcompat.Gcm.WebPush.{Primitives, Keys}
use pushcompat.Gcm.Sealed.{
  Sealing, PrimitivesLaws, Sender, web_push, Session, Sends, decrypt_web_push-web_push,
}
use pushcompat.Gcm.Session.{
  DeviceSessionState, Encodings, decrypt, CheckinReply, Decoders, read_checkin, Drawn, drawn,
  exhausted, running, draw_key, drawn_or, Randomness, Running, with_secret, generate_keys,
  then_keys, checkin, kept_keys, same_keys, refresh,
}

pub record EncodingsLaws (e : Encodings) (base64_encode : Text → Text) : Type 0 where
  pub base64_decode-base64_encode : (b : Text) → e.base64_decode (base64_encode b) ≡ some b
  pub base64url_decode-base64url_encode :
      (b : Text) → e.base64url_decode (e.base64url_encode b) ≡ some b

-- The state holds the keys, encoded.
pub record Holds (e : Encodings) (k : Keys) (s : DeviceSessionState) : Type 0 where
  pub private_key : s.private_key ≡ some (e.base64url_encode k.private_key)
  pub public_key : s.public_key ≡ some (e.base64url_encode k.public_key)
  pub auth_secret : s.auth_secret ≡ some (e.base64url_encode k.auth_secret)

abbrev pub Fill : ℕ → Option Text → Type 0
Fill n none = Unit
Fill n (some b) = length b ≡ n

-- A filled array has its length.
pub record Fills (r : Randomness) : Type 0 where
  pub keys : All (Fill 32) r.key_draws
  pub secret : Fill 16 r.secret_draw

module _ (p : Primitives) (e : Encodings) where
  -- The state holds keys that are a pair, with their lengths.
  abbrev pub Usable : DeviceSessionState → Type 0
  Usable s = (k : Keys) × Session p k × Holds e k s

  abbrev Pair : Drawn → Type 0
  Pair (drawn private public) = (length private ≡ 32) × (p.public_of private ≡ some public)
  Pair exhausted = Unit
  Pair running = Unit

  drawn_or-Pair :
      (b : Text) (rest : Drawn) (public : Option Text)
      → length b ≡ 32
      → p.public_of b ≡ public
      → Pair rest
      → Pair (drawn_or b rest public)
  drawn_or-Pair b rest (some public) l h r = (l, h)
  drawn_or-Pair b rest none l h r = r

  draw_key-Pair : (draws : List (Option Text)) → All (Fill 32) draws → Pair (draw_key p draws)
  unfolding draw_key
  draw_key-Pair [] h = tt
  draw_key-Pair (none ∷ draws) h = tt
  draw_key-Pair (some b ∷ draws) (h, k) =
      drawn_or-Pair b (draw_key p draws) (p.public_of b) h refl (draw_key-Pair draws k)

  -- What is usable of a result that may still be running or an error.
  abbrev IfDone : (DeviceSessionState → Type 0) → Running → Type 0
  IfDone P none = Unit
  IfDone P (some (ok s)) = P s
  IfDone P (some (err x)) = Unit

  with_secret-Usable :
      (s : DeviceSessionState) (secret : Option Text) (d : Drawn)
      → Fill 16 secret
      → Pair d
      → IfDone Usable (with_secret e s secret d)
  with_secret-Usable s none (drawn private public) f d = tt
  with_secret-Usable s (some secret) (drawn private public) f (l, h) = (
    record { private_key = private; public_key = public; auth_secret = secret },
    record { private_len = l; auth_len = f; pair = h },
    record { private_key = refl; public_key = refl; auth_secret = refl },
  )
  with_secret-Usable s none exhausted f d = tt
  with_secret-Usable s (some secret) exhausted f d = tt
  with_secret-Usable s none running f d = tt
  with_secret-Usable s (some secret) running f d = tt

  then_keys-done :
      (P : DeviceSessionState → Type 0) (f : DeviceSessionState → Running)
      (x : Result DeviceSessionState)
      → ((s : DeviceSessionState) → IfDone P (f s))
      → IfDone P (then_keys f x)
  then_keys-done P f (ok s) h = h s
  then_keys-done P f (err x) h = tt

  generate_keys-Usable :
      (r : Randomness) (s : DeviceSessionState) → Fills r → IfDone Usable (generate_keys p e r s)
  unfolding generate_keys
  generate_keys-Usable r s f =
      with_secret-Usable s r.secret_draw (draw_key p r.key_draws) f.secret
        (draw_key-Pair r.key_draws f.keys)

  -- A check-in that ends well leaves a session with a valid key pair and a secret, all of their
  -- lengths, whatever the server replied.
  pub checkin-Usable :
      (d : Decoders) (reply : CheckinReply) (r : Randomness) (s : DeviceSessionState)
      → Fills r
      → checkin p e d reply r ≡ some (ok s)
      → Usable s
  unfolding checkin
  checkin-Usable d reply r s f h = subst (IfDone Usable) h (
      then_keys-done Usable (generate_keys p e r) (read_checkin d reply)
        (λ u. generate_keys-Usable r u f))

  -- The state holds usable keys, and those that the old one held, if it had any.
  abbrev pub Kept : DeviceSessionState → DeviceSessionState → Type 0
  Kept old s = (k : Keys) × Session p k × Holds e k s × ((old.private_key ≡ none) ⊎ Holds e k old)

  new_keys-Kept :
      (old : DeviceSessionState) (x : Running)
      → old.private_key ≡ none
      → IfDone Usable x
      → IfDone (Kept old) x
  new_keys-Kept old none n h = h
  new_keys-Kept old (some (ok s)) n (k, pair, held) = (k, pair, held, inl n)
  new_keys-Kept old (some (err x)) n h = h

  kept_keys-Kept :
      (r : Randomness) (old s : DeviceSessionState) (key : Option Text)
      → Fills r
      → (old.private_key ≡ none) ⊎ Usable old
      → old.private_key ≡ key
      → IfDone (Kept old) (kept_keys key old (generate_keys p e r) s)
  kept_keys-Kept r old s none f h x =
      new_keys-Kept old (generate_keys p e r s) x (generate_keys-Usable r s f)
  kept_keys-Kept r old s (some key) f (inl n) x = absurd_none (sym n ∙ x)
    where
      absurd_none : none ≡ some key → Kept old (same_keys old s)
      absurd_none y = cc
  kept_keys-Kept r old s (some key) f (inr (k, pair, held)) x = (
    k,
    pair,
    record {
      private_key = held.private_key;
      public_key = held.public_key;
      auth_secret = held.auth_secret;
    },
    inr held,
  )

  -- A refresh that ends well, whatever the server replied, leaves a session that holds a valid key
  -- pair and a secret, all of their lengths: those that it held before, or new ones if it had no
  -- private key. Before, it was usable in this way or had no private key.
  pub refresh-Kept :
      (d : Decoders) (reply : CheckinReply) (r : Randomness) (old s : DeviceSessionState)
      → Fills r
      → (old.private_key ≡ none) ⊎ Usable old
      → refresh p e d reply r old ≡ some (ok s)
      → Kept old s
  unfolding refresh
  refresh-Kept d reply r old s f h x = subst (IfDone (Kept old)) x (
      then_keys-done (Kept old) (kept_keys old.private_key old (generate_keys p e r))
        (read_checkin d reply) (λ u. kept_keys-Kept r old u old.private_key f h refl))

  -- What a sender seals by RFC 8291 for the keys that a session holds, sent in base64, is decrypted
  -- to the message, where the keys are a pair and have their lengths, and the encodings and the
  -- primitives obey their laws.
  pub decrypt-web_push :
      (f : Sealing) (base64_encode : Text → Text) (k : Keys) (state : DeviceSessionState)
      (s : Sender) (message : Text)
      → PrimitivesLaws p f
      → EncodingsLaws e base64_encode
      → Session p k
      → Holds e k state
      → Sends p s message
      → decrypt p e state (base64_encode (web_push p f s k.public_key k.auth_secret message))
        ≡ ok message
  unfolding decrypt
  decrypt-web_push f base64_encode k state s message laws enc session holds sends =
      rw (holds.private_key, holds.public_key, holds.auth_secret)
        (rw
          (
            enc.base64_decode-base64_encode (web_push p f s k.public_key k.auth_secret message),
            enc.base64url_decode-base64url_encode k.private_key,
            enc.base64url_decode-base64url_encode k.public_key,
            enc.base64url_decode-base64url_encode k.auth_secret,
          )
          (decrypt_web_push-web_push p f laws k s message session sends))
