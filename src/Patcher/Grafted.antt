-- ===== src/Patcher/Grafted.antt =====
-- crates/patcher/src/apk.rs: what each file of a grafted package contains.
use pushcompat.Prelude.{
  ◌≡◌, refl, sym, ap, subst, ◌∙◌, inl, inr, List, [], ◌∷◌, Option, none, some, true, false, Text,
  ◌=?◌, =?_iff, if◌then◌else◌, Bool-cases, arith,
}
use pushcompat.Patcher.Graft.{
  Entry, is_signature, is_replaced, Replacements, replacements, last, but_last, swap_first, Found,
  found, missing, behind, take_named, added, graft_one, graft_all, graft_onto_original,
}

-- The content under a name.
unfoldable pub value_in : Text → Replacements → Option Text
value_in k [] = none
value_in k ((n, content) ∷ rs) = if n =? k then some content else value_in k rs

unfoldable pub content_of : Text → List Entry → Option Text
content_of k [] = none
content_of k (e ∷ es) = if e.name =? k then some e.content else content_of k es

abbrev pub or_else : Option Text → Option Text → Option Text
or_else none b = b
or_else (some a) b = some a

-- No name twice.
abbrev Apart : Replacements → Type 0
Apart [] = Unit
Apart ((n, content) ∷ rs) = (value_in n rs ≡ none) × Apart rs

value_in-last :
    (k : Text) (s : Text × Text) (rs : Replacements)
    → Apart (s ∷ rs)
    → value_in k (last s rs ∷ but_last s rs) ≡ value_in k (s ∷ rs)
unfolding value_in
value_in-last k s [] h = refl
value_in-last k (n, c) ((m, d) ∷ rs) (h, a) = elim (Bool-cases (n =? k)) [
  | inl e ↦
      let gone : value_in k ((m, d) ∷ rs) ≡ none =
        subst (λ x. value_in x ((m, d) ∷ rs) ≡ none) ((=?_iff n k).0 e) h in
      ground (arith, e, gone, value_in-last k (m, d) rs a)
  | inr e ↦ ground (arith, e, value_in-last k (m, d) rs a)
]

Apart-last :
    (s : Text × Text) (rs : Replacements) → Apart (s ∷ rs) → Apart (last s rs ∷ but_last s rs)
unfolding value_in
Apart-last s [] h = h
Apart-last (n, c) ((m, d) ∷ rs) (h, a) =
    let (l, b) = Apart-last (m, d) rs a in
    let gone : value_in n (last (m, d) rs ∷ but_last (m, d) rs) ≡ none =
      value_in-last n (m, d) rs a ∙ h in
    let rest : value_in n (but_last (m, d) rs) ≡ none = ground (arith, gone) in
    (ground (arith, gone, l, =?_iff n (last (m, d) rs).0, =?_iff (last (m, d) rs).0 n), (rest, b))

value_in-swap_first :
    (k : Text) (r : Text × Text) (rs : Replacements)
    → Apart rs
    → value_in k (swap_first (r ∷ rs)) ≡ value_in k rs
value_in-swap_first k r [] h = refl
value_in-swap_first k r (s ∷ rs) h = value_in-last k s rs h

Apart-swap_first : (r : Text × Text) (rs : Replacements) → Apart rs → Apart (swap_first (r ∷ rs))
Apart-swap_first r [] h = tt
Apart-swap_first r (s ∷ rs) h = Apart-last s rs h

-- What is taken is the content under the name, and the others are left.
abbrev Taken : Text → Replacements → Found → Type 0
Taken name rs missing = value_in name rs ≡ none
Taken name rs (found content rs') =
    (value_in name rs ≡ some content)
    × (((k : Text) → (name =? k) ≡ false → value_in k rs' ≡ value_in k rs) × Apart rs')

behind-Taken :
    (name n c : Text) (rs : Replacements) (f : Found)
    → (n =? name) ≡ false
    → Apart ((n, c) ∷ rs)
    → Taken name rs f
    → Taken name ((n, c) ∷ rs) (behind (n, c) f)
unfolding value_in
behind-Taken name n c rs missing e a t = rw e t
behind-Taken name n c rs (found content rs') e (h, a) (t, (keep, b)) = (
  rw e t,
  (
    (λ k d. ground (arith, keep k d)),
    (keep n (ground (arith, e, =?_iff n name, =?_iff name n)) ∙ h, b),
  ),
)

take_named-Taken : (name : Text) (rs : Replacements) → Apart rs → Taken name rs (take_named name rs)
unfolding take_named value_in
take_named-Taken name [] h = refl
take_named-Taken name ((n, c) ∷ rs) (h, a) = elim (Bool-cases (n =? name)) [
  | inl e ↦ rw e (
    rw e refl,
    (
      (λ k d.
          value_in-swap_first k (n, c) rs a
          ∙ ground (arith, d, e, =?_iff n name, =?_iff n k, =?_iff name k)),
      Apart-swap_first (n, c) rs a,
    ),
  )
  | inr e ↦
      rw e (behind-Taken name n c rs (take_named name rs) e (h, a) (take_named-Taken name rs a))
]

content_of-added : (k : Text) (rs : Replacements) → content_of k (added rs) ≡ value_in k rs
unfolding content_of value_in
content_of-added k [] = refl
content_of-added k ((n, c) ∷ rs) = ground (arith, content_of-added k rs)

-- What the name has in the end, from the replacements and the original.
abbrev expected : Text → Replacements → List Entry → Option Text
expected k rs es = or_else (value_in k rs) (if is_signature k then none else content_of k es)

one-expected :
    (k : Text) (e : Entry) (es : List Entry) (rs : Replacements) (f : Found)
    → is_signature e.name ≡ false
    → Taken e.name rs f
    → ((rs' : Replacements) → Apart rs' → content_of k (graft_all es rs') ≡ expected k rs' es)
    → Apart rs
    → content_of k (graft_one e rs (graft_all es) f) ≡ expected k rs (e ∷ es)
unfolding content_of
one-expected k e es rs missing s t h a = elim (Bool-cases (e.name =? k)) [
  | inl d ↦
      let same : e.name ≡ k = (=?_iff e.name k).0 d in
      let plain : is_signature k ≡ false = subst (λ n. is_signature n ≡ false) same s in
      let nothing : value_in k rs ≡ none = subst (λ n. value_in n rs ≡ none) same t in
      rw (nothing, plain, d) refl
  | inr d ↦ ground (arith, d, h rs a)
]
one-expected k e es rs (found content rs') s (t, (keep, b)) h a = elim (Bool-cases (e.name =? k)) [
  | inl d ↦
      let there : value_in k rs ≡ some content =
        subst (λ n. value_in n rs ≡ some content) ((=?_iff e.name k).0 d) t in
      rw (there, d) refl
  | inr d ↦ ground (arith, d, keep k d, h rs' b)
]

signed-expected :
    (k : Text) (e : Entry) (es : List Entry) (rs : Replacements)
    → is_signature e.name ≡ true
    → expected k rs es ≡ expected k rs (e ∷ es)
unfolding content_of
signed-expected k e es rs s = elim (Bool-cases (e.name =? k)) [
  | inl d ↦
      let signs : is_signature k ≡ true =
        subst (λ n. is_signature n ≡ true) ((=?_iff e.name k).0 d) s in
      rw signs refl
  | inr d ↦ rw d refl
]

graft_all-expected :
    (k : Text) (es : List Entry) (rs : Replacements)
    → Apart rs
    → content_of k (graft_all es rs) ≡ expected k rs es
unfolding graft_all
graft_all-expected k [] rs a = content_of-added k rs ∙ unfold content_of in ground arith
graft_all-expected k (e ∷ es) rs a = elim (Bool-cases (is_signature e.name)) [
  | inl s ↦ rw s (graft_all-expected k es rs a ∙ signed-expected k e es rs s)
  | inr s ↦ rw s (
      one-expected k e es rs (take_named e.name rs) s (take_named-Taken e.name rs a)
        (λ rs' b. graft_all-expected k es rs' b) a)
]

value_in-replacements :
    (k : Text) (es : List Entry)
    → value_in k (replacements es) ≡ (if is_replaced k then content_of k es else none)
unfolding replacements value_in content_of
value_in-replacements k [] = ground arith
value_in-replacements k (e ∷ es) = elim (Bool-cases (e.name =? k)) [
  | inl d ↦
      let same : is_replaced e.name ≡ is_replaced k = ap is_replaced ((=?_iff e.name k).0 d) in
      elim (Bool-cases (is_replaced e.name)) [
        | inl r ↦ rw r (rw (sym same ∙ r, d) refl)
        | inr r ↦ rw r (value_in-replacements k es ∙ rw (sym same ∙ r) refl)
      ]
  | inr d ↦ elim (Bool-cases (is_replaced e.name)) [
    | inl r ↦ rw r (rw d (value_in-replacements k es))
    | inr r ↦ rw r (rw d (value_in-replacements k es))
  ]
]

-- No two entries of an archive share a name.
abbrev pub Unique : List Entry → Type 0
Unique [] = Unit
Unique (e ∷ es) = (content_of e.name es ≡ none) × Unique es

replacements-Apart : (es : List Entry) → Unique es → Apart (replacements es)
unfolding replacements value_in
replacements-Apart [] u = tt
replacements-Apart (e ∷ es) (h, u) = elim (Bool-cases (is_replaced e.name)) [
  | inl r ↦ rw r (value_in-replacements e.name es ∙ rw r h, replacements-Apart es u)
  | inr r ↦ rw r (replacements-Apart es u)
]

-- A file of the grafted package has the content that the build has for it, if it is the manifest or
-- a dex file of the build, and else that of the original, unless it is a signature file; no other
-- file is there. The build has to have no name twice.
pub content_of-graft_onto_original :
    (k : Text) (original built : List Entry)
    → Unique built
    → content_of k (graft_onto_original original built)
      ≡ or_else
          (if is_replaced k then content_of k built else none)
          (if is_signature k then none else content_of k original)
unfolding graft_onto_original
content_of-graft_onto_original k original built u =
    graft_all-expected k original (replacements built) (replacements-Apart built u)
    ∙ ap (λ o. or_else o (if is_signature k then none else content_of k original))
        (value_in-replacements k built)
