-- ===== src/Gcm/Retries.antt =====
-- crates/listener/src/gcm.rs: how the reading of a response and the registration end.
use pushcompat.Prelude.{
  ℕ, zero, suc, ◌+◌, ◌≤◌, ◌≡◌, ◌↔◌, refl, sym, ap, subst, ◌∙◌, inl, inr, List, [], ◌∷◌, ◌++◌,
  Option, none, some, String, Bool, true, false, Text, length, length-append, ltb, if◌then◌else◌,
  Bool-cases, Option-cases, arith,
}
use mathlib.Core.List.{append_assoc, append-nil}
use mathlib.Core.Option
use mathlib.Core.Option.{some-injective}
use pushcompat.Gcm.Result.{Result, ok, err}
use pushcompat.Gcm.Http.{
  max_http_response_bytes, Chunk, chunk, broken, read_chunks, read_response_bytes, Posted,
  phone_registration_error, retry_delay_ms, text_of, verdict, conclude, is_transient, attempt,
  register_loop, register,
}

-- Whether an attempt's response asks for another one.
abbrev pub asks_again : Result Text → Bool
asks_again (err e) = false
asks_again (ok text) = is_transient (verdict text)

-- What a response means where it is the last.
abbrev pub final : Result Text → Result Text
final (err e) = err e
final (ok text) = conclude (verdict text)

-- The index of the first response that does not ask for another attempt, or the last index.
unfoldable pub first_final : ℕ → (ℕ → Result Text) → ℕ
first_final zero texts = 0
first_final (suc n) texts =
    let rest = first_final n (λ k. texts (suc k)) in if asks_again (texts 0) then suc rest else 0

abbrev pub repeat : ℕ → ℕ → List ℕ
repeat zero x = []
repeat (suc n) x = x ∷ repeat n x

first_final_bound : (n : ℕ) (texts : ℕ → Result Text) → first_final n texts ≤ n
unfolding first_final
first_final_bound zero texts = omega arith
first_final_bound (suc n) texts = ground (arith, first_final_bound n (λ k. texts (suc k)))

abbrev ends_at : ℕ → (ℕ → Result Text) → Result Text × List ℕ
ends_at n texts = (final (texts n), repeat n retry_delay_ms)

attempt_last : (rest : Result Text × List ℕ) (r : Result Text) → attempt 0 rest r ≡ (final r, [])
attempt_last rest (err e) = refl
attempt_last rest (ok text) = ground arith

attempt_more :
    (left : ℕ) (rest : Result Text × List ℕ) (r : Result Text)
    → attempt (suc left) rest r
      ≡ (if asks_again r then (rest.0, retry_delay_ms ∷ rest.1) else (final r, []))
attempt_more left rest (err e) = refl
attempt_more left rest (ok text) = ground arith

ends_here :
    (b : Bool) (x y : Result Text × List ℕ) (n : ℕ) (texts : ℕ → Result Text)
    → x ≡ ends_at (suc n) texts
    → y ≡ ends_at 0 texts
    → (if b then x else y) ≡ ends_at (if b then suc n else 0) texts
ends_here true x y n texts e f = e
ends_here false x y n texts e f = f

register_loop_lem :
    (is_utf8 : Text → Bool) (left : ℕ) (last_error : Option Text) (responses : ℕ → Posted)
    → register_loop is_utf8 (suc left) last_error responses
      ≡ ends_at
          (first_final left (λ k. text_of is_utf8 (responses k)))
          (λ k. text_of is_utf8 (responses k))
unfolding register_loop first_final
register_loop_lem is_utf8 zero last_error responses = attempt_last _ (text_of is_utf8 (responses 0))
register_loop_lem is_utf8 (suc left) last_error responses =
    attempt_more left _ (text_of is_utf8 (responses 0))
    ∙ ends_here (asks_again (text_of is_utf8 (responses 0))) _ _
        (first_final left (λ k. text_of is_utf8 (responses (suc k))))
        (λ k. text_of is_utf8 (responses k))
        (ap (λ x. (x.0, retry_delay_ms ∷ x.1))
          (register_loop_lem is_utf8 left (some phone_registration_error) (λ k. responses (suc k))))
        refl

-- The registration ends with the first response that is a token, a refusal other than the transient
-- one, or a failure, or else with the fifteenth response, and gives what that response means; before
-- it, it sleeps 250 ms after each response, at most fourteen times.
pub register-first_final :
    (is_utf8 : Text → Bool) (responses : ℕ → Posted)
    → let texts = λ (k : ℕ). text_of is_utf8 (responses k) in
      let n = first_final 14 texts in
      (register is_utf8 responses ≡ (final (texts n), repeat n retry_delay_ms)) × (n ≤ 14)
unfolding register
register-first_final is_utf8 responses = (
  register_loop_lem is_utf8 14 none responses,
  first_final_bound 14 (λ k. text_of is_utf8 (responses k)),
)

-- The bytes of a response that arrives whole.
unfoldable pub whole : List Chunk → Option Text
whole [] = some []
whole (chunk more true ∷ cs) = Option.map (◌++◌ more) (whole cs)
whole (chunk more false ∷ cs) = none
whole (broken ∷ cs) = none

same_ok : (a b : Text) → ok a ≡ ok b → a ≡ b
same_ok a b e = cc

within :
    (api : String) (cs : List Chunk) (more body b : Text)
    → ltb max_http_response_bytes (length body + length more) ≡ false
    → read_chunks api (chunk more true ∷ cs) body ≡ ok b
    → read_chunks api cs (body ++ more) ≡ ok b
unfolding read_chunks
within api cs more body b t e = ground (arith, t)

fits :
    (api : String) (cs : List Chunk) (more body tail : Text)
    → length ((body ++ more) ++ tail) ≤ max_http_response_bytes
    → read_chunks api cs (body ++ more) ≡ ok ((body ++ more) ++ tail)
    → read_chunks api (chunk more true ∷ cs) body ≡ ok ((body ++ more) ++ tail)
unfolding read_chunks
fits api cs more body tail h e =
    ground (arith, length-append (body ++ more) tail, length-append body more)

read_sound :
    (api : String) (cs : List Chunk) (body b : Text)
    → length body ≤ max_http_response_bytes
    → read_chunks api cs body ≡ ok b
    → (rest : Text) × (whole cs ≡ some rest)
      × (body ++ rest ≡ b)
      × (length b ≤ max_http_response_bytes)
unfolding read_chunks whole
read_sound api [] body b h e = (
  [],
  refl,
  append-nil body ∙ same_ok body b e,
  subst (λ x. length x ≤ max_http_response_bytes) (same_ok body b e) h,
)
read_sound api (chunk more true ∷ cs) body b h e =
    elim (Bool-cases (ltb max_http_response_bytes (length body + length more))) [
      | inl t ↦ ground (arith, t)
      | inr t ↦
          let (rest, w, j, k) =
            read_sound api cs (body ++ more) b (ground (arith, length-append body more))
              (within api cs more body b t e) in
          (more ++ rest, ap (Option.map (◌++◌ more)) w, sym (append_assoc body more rest) ∙ j, k)
    ]
read_sound api (chunk more false ∷ cs) body b h e = ground arith
read_sound api (broken ∷ cs) body b h e = cc

read_complete :
    (api : String) (cs : List Chunk) (body rest : Text)
    → whole cs ≡ some rest
    → length (body ++ rest) ≤ max_http_response_bytes
    → read_chunks api cs body ≡ ok (body ++ rest)
unfolding read_chunks whole
read_complete api [] body rest w h =
    ap ok (sym (append-nil body) ∙ ap (◌++◌ body) (some-injective [] rest w))
read_complete api (chunk more true ∷ cs) body rest w h = elim (Option-cases (whole cs)) [
  | inl e ↦ ground (arith, e)
  | inr (tail, e) ↦
      let joined : more ++ tail ≡ rest =
        some-injective (more ++ tail) rest (ap (Option.map (◌++◌ more)) (sym e) ∙ w) in
      let all : (body ++ more) ++ tail ≡ body ++ rest =
        append_assoc body more tail ∙ ap (◌++◌ body) joined in
      let size : length ((body ++ more) ++ tail) ≤ max_http_response_bytes =
        subst (λ x. length x ≤ max_http_response_bytes) (sym all) h in
      fits api cs more body tail size (read_complete api cs (body ++ more) tail e size) ∙ ap ok all
]
read_complete api (chunk more false ∷ cs) body rest w h = cc
read_complete api (broken ∷ cs) body rest w h = cc

-- A response is read to some bytes exactly if all of it arrives, memory for it sufficing, the bytes
-- are those of its chunks one after another, and they are at most a mebibyte.
pub read_response_bytes_iff :
    (api : String) (cs : List Chunk) (b : Text)
    → (read_response_bytes api cs ≡ ok b)
      ↔ ((whole cs ≡ some b) × (length b ≤ max_http_response_bytes))
unfolding read_response_bytes
read_response_bytes_iff api cs b = (
  λ e.
      let (rest, w, j, k) = read_sound api cs [] b (omega arith) e in
      (subst (λ x. whole cs ≡ some x) j w, k),
  λ (w, k). read_complete api cs [] b w k,
)
