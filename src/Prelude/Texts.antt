-- ===== src/Prelude/Texts.antt =====
-- Texts: a Rust `String` or `str` is the list of its UTF-8 bytes.
use Prim.Native.Char.{code}
use Prim.Native.Nat.{ℕ}
use Prim.Native.String.{String}
use mathlib.Core.Path.{◌≡◌, refl}
use mathlib.Core.Logic.{◌↔◌}
use mathlib.Core.Bool.{Bool, true, false, ◌&&◌}
use mathlib.Core.Option.{Option, none, some}
use mathlib.Core.List.{List, [], ◌∷◌}
use native.Mathlib.Omega.{arith}
use pushcompat.Prelude.Tests.{◌==◌}

abbrev pub Text : Type 0
Text = List ℕ

-- The bytes of an ASCII literal.
abbrev pub bytes : String → Text
bytes String.[] = []
bytes (String.◌∷◌ c s) = code c ∷ bytes s

infix 50 ◌=?◌
unfoldable pub ◌=?◌ : Text → Text → Bool
[] =? [] = true
[] =? (y ∷ ys) = false
(x ∷ xs) =? [] = false
(x ∷ xs) =? (y ∷ ys) = x == y && xs =? ys

pub =?_iff : (a b : Text) → ((a =? b) ≡ true) ↔ (a ≡ b)
unfolding ◌=?◌
=?_iff [] [] = ground arith
=?_iff [] (y ∷ ys) = ground arith
=?_iff (x ∷ xs) [] = ground arith
=?_iff (x ∷ xs) (y ∷ ys) = ground (arith, =?_iff xs ys)

pub =?_refl : (a : Text) → (a =? a) ≡ true
=?_refl a = (=?_iff a a).1 refl

-- Two optional texts: `Option<String>` compared by `==`.
infix 50 ◌=??◌
abbrev pub ◌=??◌ : Option Text → Option Text → Bool
none =?? none = true
none =?? some b = false
some a =?? none = false
some a =?? some b = a =? b
