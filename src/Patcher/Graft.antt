-- ===== src/Patcher/Graft.antt =====
-- crates/patcher/src/apk.rs: `graft_onto_original`, on the entries of the archives in their order.
use pushcompat.Prelude.{
  ℕ, List, [], ◌∷◌, Option, none, some, Bool, false, ◌&&◌, ◌||◌, Text, bytes, ◌=?◌, any,
  strip_prefix, starts_with, ends_with, eq_ignore_ascii_case, split, if◌then◌else◌,
}

-- `method` is how an entry is compressed.
pub record Entry : Type 0 where
  pub name : Text
  pub method : ℕ
  pub content : Text

-- `rsplit_once('.')`: what follows the last dot.
abbrev pub behind_last : Text → List Text → Option Text
behind_last before [] = none
behind_last before (part ∷ []) = some part
behind_last before (part ∷ next ∷ parts) = behind_last part (next ∷ parts)

abbrev pub after_first : List Text → Option Text
after_first [] = none
after_first (part ∷ []) = none
after_first (part ∷ next ∷ parts) = behind_last part (next ∷ parts)

unfoldable pub extension : Text → Option Text
unfolding split
extension rest = after_first (split b'.' rest)

abbrev pub extensions : List Text
extensions = bytes "SF" ∷ bytes "RSA" ∷ bytes "DSA" ∷ bytes "EC" ∷ []

abbrev pub is_extension : Option Text → Text → Bool
is_extension none ext = false
is_extension (some e) ext = eq_ignore_ascii_case e ext

abbrev pub signs : Option Text → Bool
signs none = false
signs (some rest) =
    eq_ignore_ascii_case rest (bytes "MANIFEST.MF")
    || any (is_extension (extension rest)) extensions

unfoldable pub is_signature : Text → Bool
unfolding strip_prefix eq_ignore_ascii_case extension
is_signature name = signs (strip_prefix (bytes "META-INF/") name)

unfoldable pub is_replaced : Text → Bool
unfolding ◌=?◌ starts_with ends_with
is_replaced name =
    name =? bytes "AndroidManifest.xml"
    || (starts_with (bytes "classes") name && ends_with (bytes ".dex") name)

abbrev pub Replacements : Type 0
Replacements = List (Text × Text)

-- The entries of the build that are taken.
unfoldable pub replacements : List Entry → Replacements
unfolding is_replaced
replacements [] = []
replacements (e ∷ es) =
    let rest = replacements es in if is_replaced e.name then (e.name, e.content) ∷ rest else rest

abbrev pub last : Text × Text → Replacements → Text × Text
last r [] = r
last r (s ∷ rs) = last s rs

abbrev pub but_last : Text × Text → Replacements → Replacements
but_last r [] = []
but_last r (s ∷ rs) = r ∷ but_last s rs

-- `swap_remove` of the first element: the last one comes in its place.
abbrev pub swap_first : Replacements → Replacements
swap_first [] = []
swap_first (r ∷ []) = []
swap_first (r ∷ s ∷ rs) = last s rs ∷ but_last s rs

-- `position` and `swap_remove`: the content under the name, and the others.
pub data Found : Type 0 where
  found : Text → Replacements → Found
  missing : Found

abbrev pub behind : Text × Text → Found → Found
behind r (found content rs) = found content (r ∷ rs)
behind r missing = missing

unfoldable pub take_named : Text → Replacements → Found
unfolding ◌=?◌
take_named name [] = missing
take_named name ((n, content) ∷ rs) =
    let rest = behind (n, content) (take_named name rs) in
    if n =? name then found content (swap_first ((n, content) ∷ rs)) else rest

abbrev pub deflated : ℕ
deflated = 8

-- The files that the original did not have.
abbrev pub added : Replacements → List Entry
added [] = []
added ((name, content) ∷ rs) =
    record { name = name; method = deflated; content = content } ∷ added rs

-- An original entry, with the replacement of its content if there is one.
abbrev pub graft_one : Entry → Replacements → (Replacements → List Entry) → Found → List Entry
graft_one e rs rest (found content rs') = record e { content = content } ∷ rest rs'
graft_one e rs rest missing = e ∷ rest rs

unfoldable pub graft_all : List Entry → Replacements → List Entry
unfolding is_signature take_named
graft_all [] rs = added rs
graft_all (e ∷ es) rs =
    let without = graft_all es rs in
    let with_it = graft_one e rs (graft_all es) (take_named e.name rs) in
    if is_signature e.name then without else with_it

-- `graft_onto_original`, by the entries of the original and of the build.
unfoldable pub graft_onto_original : List Entry → List Entry → List Entry
unfolding graft_all replacements
graft_onto_original original built = graft_all original (replacements built)
