-- ===== src/Gcm/Result.antt =====
-- crates/listener/src/error.rs: `Error`, and results that carry it.
use pushcompat.Prelude.{String, Option, none, some, Bool, true, false, Text}

-- The API and the problem; what a library says of its own error is left out.
pub data Error : Type 0 where
  dependency_failure : String → String → Error
  dependency_rejection : String → Text → Error
  protobuf_decode request response : String → Error
  socket : Error

pub data Result {ℓ} (A : Type ℓ) : Type ℓ where
  ok : A → Result A
  err : Error → Result A

infixl 5 ◌>>=◌ ◌>>◌
abbrev pub ◌>>=◌ : {A B : Type 0} → Result A → (A → Result B) → Result B
ok a >>= f = f a
err e >>= f = err e

abbrev pub ◌>>◌ : {B : Type 0} → Result (Unit {0}) → Result B → Result B
m >> k = m >>= λ _. k

-- `ok_or` and `map_err`.
abbrev pub ok_or : {A : Type 0} → Error → Option A → Result A
ok_or e none = err e
ok_or e (some a) = ok a

-- An early return under a condition.
abbrev pub refuse_if : Bool → Error → Result (Unit {0})
refuse_if true e = err e
refuse_if false e = ok tt
