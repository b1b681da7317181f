-- ===== src/Patcher/Again.antt =====
-- crates/patcher/src/manifest.rs: a manifest that was patched is left alone.
use pushcompat.Prelude.{
  ℕ, ◌≡◌, refl, sym, ap, subst, ◌∙◌, inl, inr, [], ◌∷◌, ◌++◌, Option, none, some, Bool, true, false,
  not, Text, bytes, ◌==◌, all, strip_prefix, starts_with, if◌then◌else◌, Bool-cases, arith,
}
use pushcompat.Patcher.Manifest.{
  contains, behind, split_at, inserted, insert_before, receiver_class, ntfy, application,
  application_end, queries, queries_end, receiver_declaration, queries_section, ntfy_package,
  or_same, add_queries, with_queries, with_internet, add_unifiedpush_receiver,
}

-- No angle bracket in a text.
abbrev is_plain : ℕ → Bool
is_plain c = not (c == b'<')

-- A text that begins with an angle bracket.
abbrev Tag : Text → Type 0
Tag v = (w : Text) × (v ≡ b'<' ∷ w)

starts_step :
    (p c : ℕ) (ps s : Text)
    → starts_with (p ∷ ps) (c ∷ s) ≡ (if p == c then starts_with ps s else false)
unfolding starts_with strip_prefix
starts_step p c ps s = ground arith

starts_within :
    (sub u v w : Text)
    → all is_plain sub ≡ true
    → Tag v
    → starts_with sub (u ++ v) ≡ true
    → starts_with sub (u ++ w) ≡ true
starts_within [] u v w a t h = unfold starts_with strip_prefix in refl
starts_within (p ∷ ps) [] v w a (x, e) h =
    let stop : (if p == b'<' then starts_with ps x else false) ≡ true =
      sym (starts_step p b'<' ps x) ∙ subst (λ y. starts_with (p ∷ ps) y ≡ true) e h in
    ground (arith, stop)
starts_within (p ∷ ps) (c ∷ u) v w a t h =
    let go : (if p == c then starts_with ps (u ++ v) else false) ≡ true =
      sym (starts_step p c ps (u ++ v)) ∙ h in
    starts_step p c ps (u ++ w) ∙ ground (arith, go, starts_within ps u v w (ground arith) t)

contains-front : (sub t s : Text) → contains sub s ≡ true → contains sub (t ++ s) ≡ true
unfolding contains
contains-front sub [] s h = h
contains-front sub (c ∷ t) s h = ground (arith, contains-front sub t s h)

contains_start : (sub s : Text) → starts_with sub s ≡ true → contains sub s ≡ true
unfolding contains
contains_start sub [] h = h
contains_start sub (c ∷ s) h = ground arith

-- What is inserted before a tag splits no text without one.
contains-kept :
    (sub u t v : Text)
    → all is_plain sub ≡ true
    → Tag v
    → contains sub (u ++ v) ≡ true
    → contains sub (u ++ (t ++ v)) ≡ true
unfolding contains
contains-kept sub [] t v a g h = contains-front sub t v h
contains-kept sub (c ∷ u) t v a g h = elim (Bool-cases (starts_with sub (c ∷ (u ++ v)))) [
  | inl e ↦ rw (starts_within sub (c ∷ u) v (t ++ v) a g e) refl
  | inr e ↦ ground (arith, e, contains-kept sub u t v a g)
]

starts-append : (sub t v : Text) → starts_with sub t ≡ true → starts_with sub (t ++ v) ≡ true
starts-append [] t v h = unfold starts_with strip_prefix in refl
starts-append (p ∷ ps) [] v h = unfold starts_with strip_prefix in cc
starts-append (p ∷ ps) (c ∷ t) v h =
    let go : (if p == c then starts_with ps t else false) ≡ true = sym (starts_step p c ps t) ∙ h in
    starts_step p c ps (t ++ v) ∙ ground (arith, go, starts-append ps t v)

contains-append : (sub t v : Text) → contains sub t ≡ true → contains sub (t ++ v) ≡ true
unfolding contains
contains-append sub [] v h = contains_start sub v (starts-append sub [] v h)
contains-append sub (c ∷ t) v h = elim (Bool-cases (starts_with sub (c ∷ t))) [
  | inl e ↦ rw (starts-append sub (c ∷ t) v e) refl
  | inr e ↦ ground (arith, e, contains-append sub t v)
]

-- The two parts are the text, and the second starts with what was found.
abbrev Splits : Text → Text → Option (Text × Text) → Type 0
Splits sub s none = Unit
Splits sub s (some (u, v)) = (s ≡ u ++ v) × (starts_with sub v ≡ true)

behind-Splits :
    (sub s : Text) (c : ℕ) (o : Option (Text × Text))
    → Splits sub s o
    → Splits sub (c ∷ s) (behind o (c ∷ []))
behind-Splits sub s c none h = tt
behind-Splits sub s c (some (u, v)) (e, h) = (ap (◌∷◌ c) e, h)

split_at-Splits : (sub s : Text) → Splits sub s (split_at sub s)
unfolding split_at
split_at-Splits sub [] = elim (Bool-cases (starts_with sub [])) [
  | inl e ↦ rw e (refl, e)
  | inr e ↦ rw e tt
]
split_at-Splits sub (c ∷ s) = elim (Bool-cases (starts_with sub (c ∷ s))) [
  | inl e ↦ rw e (refl, e)
  | inr e ↦ rw e (behind-Splits sub s c (split_at sub s) (split_at-Splits sub s))
]

begins_angle : (r v : Text) → starts_with (b'<' ∷ r) v ≡ true → Tag v
begins_angle r [] h = unfold starts_with strip_prefix in cc
begins_angle r (c ∷ v) h =
    let go : (if b'<' == c then starts_with r v else false) ≡ true =
      sym (starts_step b'<' c r v) ∙ h in
    (v, ap (λ x. x ∷ v) (ground (arith, go)))

-- A text that stays after an insertion before a tag, and one that comes with it.
abbrev Keeps : Text → Text → Option Text → Type 0
Keeps sub s none = Unit
Keeps sub s (some t) = contains sub s ≡ true → contains sub t ≡ true

abbrev Brings : Text → Option Text → Type 0
Brings sub none = Unit
Brings sub (some t) = contains sub t ≡ true

inserted-Keeps :
    (sub r text s : Text) (o : Option (Text × Text))
    → all is_plain sub ≡ true
    → Splits (b'<' ∷ r) s o
    → Keeps sub s (inserted text o)
inserted-Keeps sub r text s none a h = tt
inserted-Keeps sub r text s (some (u, v)) a (e, h) =
    λ k. contains-kept sub u text v a (begins_angle r v h) (subst (λ x. contains sub x ≡ true) e k)

insert_before-Keeps :
    (sub r text s : Text) → all is_plain sub ≡ true → Keeps sub s (insert_before (b'<' ∷ r) text s)
unfolding insert_before
insert_before-Keeps sub r text s a =
    inserted-Keeps sub r text s (split_at (b'<' ∷ r) s) a (split_at-Splits (b'<' ∷ r) s)

inserted-Brings :
    (sub text : Text) (o : Option (Text × Text))
    → contains sub text ≡ true
    → Brings sub (inserted text o)
inserted-Brings sub text none h = tt
inserted-Brings sub text (some (u, v)) h =
    contains-front sub u (text ++ v) (contains-append sub text v h)

or_same-Keeps :
    (sub s : Text) (o : Option Text)
    → Keeps sub s o
    → contains sub s ≡ true
    → contains sub (or_same o s) ≡ true
or_same-Keeps sub s none k h = h
or_same-Keeps sub s (some t) k h = k h

class_plain : all is_plain receiver_class ≡ true
unfolding receiver_class
class_plain = refl

class_declared : contains receiver_class receiver_declaration ≡ true
unfolding contains receiver_class receiver_declaration starts_with strip_prefix
class_declared = refl

queries_end-Keeps : (text m : Text) → Keeps receiver_class m (insert_before queries_end text m)
unfolding queries_end
queries_end-Keeps text m = insert_before-Keeps receiver_class (bytes "/queries>") text m class_plain

application-Keeps : (text m : Text) → Keeps receiver_class m (insert_before application text m)
unfolding application
application-Keeps text m =
    insert_before-Keeps receiver_class (bytes "application") text m class_plain

Keeps-Brings :
    (sub s : Text) (o : Option Text) → Keeps sub s o → contains sub s ≡ true → Brings sub o
Keeps-Brings sub s none k h = tt
Keeps-Brings sub s (some t) k h = k h

add_queries-Brings :
    (m : Text) → contains receiver_class m ≡ true → Brings receiver_class (add_queries m)
unfolding add_queries
add_queries-Brings m h = elim (Bool-cases (contains queries m)) [
  | inl e ↦ elim (Bool-cases (contains ntfy m)) [
    | inl f ↦ rw e (rw f h)
    | inr f ↦ rw e (
        rw f (
          Keeps-Brings receiver_class m (insert_before queries_end ntfy_package m)
            (queries_end-Keeps ntfy_package m) h))
  ]
  | inr e ↦ rw e (
      or_same-Keeps receiver_class m (insert_before application queries_section m)
        (application-Keeps queries_section m) h)
]

with_queries-Brings :
    (o : Option Text) → Brings receiver_class o → Brings receiver_class (with_queries o)
with_queries-Brings none h = tt
with_queries-Brings (some m) h = add_queries-Brings m h

declared-Brings :
    (m : Text) → Brings receiver_class (insert_before application_end receiver_declaration m)
unfolding insert_before
declared-Brings m =
    inserted-Brings receiver_class receiver_declaration (split_at application_end m) class_declared

patched-Brings : (content : Text) → Brings receiver_class (add_unifiedpush_receiver content)
unfolding add_unifiedpush_receiver
patched-Brings content = elim (Bool-cases (contains receiver_class content)) [
  | inl e ↦ rw e e
  | inr e ↦ rw e (
      with_queries-Brings
        (insert_before application_end receiver_declaration (with_internet content))
        (declared-Brings (with_internet content)))
]

left_alone :
    (content : Text)
    → contains receiver_class content ≡ true
    → add_unifiedpush_receiver content ≡ some content
unfolding add_unifiedpush_receiver
left_alone content h = rw h refl

-- A manifest that was patched without an error names the receiver, whatever else was inserted around
-- it, and to patch it again changes nothing.
pub add_unifiedpush_receiver-again :
    (content patched : Text)
    → add_unifiedpush_receiver content ≡ some patched
    → (contains receiver_class patched ≡ true) × (add_unifiedpush_receiver patched ≡ some patched)
add_unifiedpush_receiver-again content patched e =
    let names : contains receiver_class patched ≡ true =
      subst (Brings receiver_class) e (patched-Brings content) in
    (names, left_alone patched names)
