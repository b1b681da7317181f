-- ===== src/Tests/OfPatcher.antt =====
-- The rewriting of a package on small inputs.
use pushcompat.Prelude.{
  ℕ, ◌+◌, ◌≤◌, ◌<◌, ◌≡◌, ◌⊎◌, refl, [], ◌∷◌, List, none, some, Bool, true, false, ◌||◌, Text, bytes,
  ◌=?◌, ◌==◌, strip_prefix, starts_with, if◌then◌else◌,
}
use pushcompat.Patcher.Dex.{get_next_dex_number, highest_from}
use pushcompat.Patcher.Fresh.{get_next_dex_number-free}
use pushcompat.Patcher.Graft.{Entry, is_signature, is_replaced, graft_onto_original}
use pushcompat.Patcher.Grafted.{content_of, or_else, Unique, content_of-graft_onto_original}
use pushcompat.Patcher.Manifest.{
  contains, split_at, insert_before, receiver_class, internet, application, application_end,
  receiver_declaration, queries, queries_section, uses_permission, or_same, add_permission,
  add_queries, add_unifiedpush_receiver,
}
use pushcompat.Patcher.Again.{add_unifiedpush_receiver-again}

abbrev up_to_three : ℕ → Bool
up_to_three i = i == 2 || i == 3

next_number : get_next_dex_number up_to_three ≡ 4
unfolding get_next_dex_number highest_from
next_number = refl

get_next_dex_number-free_example :
    (highest : ℕ) × (get_next_dex_number up_to_three ≡ highest + 1)
    × (1 ≤ highest)
    × (highest ≤ 20)
    × ((highest ≡ 1) ⊎ (up_to_three highest ≡ true))
    × ((5 ≤ highest) ⊎ ((20 < 5) ⊎ (up_to_three 5 ≡ false)))
get_next_dex_number-free_example = get_next_dex_number-free up_to_three 5

abbrev file : Text → Text → Entry
file name content = record { name = name; method = 0; content = content }

abbrev original : List Entry
original =
    file (bytes "classes.dex") (bytes "old")
    ∷ file (bytes "META-INF/A.rsa") (bytes "key")
    ∷ file (bytes "res") (bytes "data")
    ∷ []

abbrev built : List Entry
built =
    file (bytes "res") (bytes "broken")
    ∷ file (bytes "classes.dex") (bytes "new")
    ∷ file (bytes "classes2.dex") (bytes "shim")
    ∷ []

built-Unique : Unique built
unfolding content_of ◌=?◌
built-Unique = (refl, (refl, (refl, tt)))

content_of-graft_onto_original_example :
    content_of (bytes "res") (graft_onto_original original built)
    ≡ or_else
        (if is_replaced (bytes "res") then content_of (bytes "res") built else none)
        (if is_signature (bytes "res") then none else content_of (bytes "res") original)
content_of-graft_onto_original_example =
    content_of-graft_onto_original (bytes "res") original built built-Unique

abbrev manifest : Text
manifest = bytes "<manifest><application a=\"b\"></application></manifest>"

abbrev patched : Text
patched = or_same (add_unifiedpush_receiver manifest) []

first_time : add_unifiedpush_receiver manifest ≡ some patched
unfolding add_unifiedpush_receiver contains split_at insert_before receiver_class internet
    application application_end receiver_declaration queries queries_section uses_permission
    add_permission add_queries starts_with strip_prefix
first_time = refl

add_unifiedpush_receiver-again_example :
    (contains receiver_class patched ≡ true) × (add_unifiedpush_receiver patched ≡ some patched)
add_unifiedpush_receiver-again_example = add_unifiedpush_receiver-again manifest patched first_time
