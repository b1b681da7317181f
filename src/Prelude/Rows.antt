-- ===== src/Prelude/Rows.antt =====
-- Lemmas on the rows of a table: what INSERT, UPDATE and DELETE do to a key that no two rows share
-- and to a search.
use mathlib.Core.Path.{◌≡◌, refl, fun_ext}
use mathlib.Core.Bool.{Bool, true, false, ◌||◌}
use mathlib.Core.Logic.{inl, inr}
use mathlib.Core.Option
use mathlib.Core.Option.{Option, none, some}
use mathlib.Core.List.{List, [], ◌∷◌, ◌++◌, reverse, reverse-cons}
use native.Mathlib.Omega.{arith}
use pushcompat.Prelude.Tests.{if◌then◌else◌, Bool-cases}
use pushcompat.Prelude.Lists.{any, find, delete, select, update}

-- No two rows stand in the relation.
module _ {ℓ} {A : Type ℓ} where
  abbrev pub Distinct : (A → A → Bool) → List A → Type 0
  Distinct s [] = Unit
  Distinct s (x ∷ xs) = (any (s x) xs ≡ false) × Distinct s xs

  pub any-append : (p : A → Bool) (xs ys : List A) → any p (xs ++ ys) ≡ (any p xs || any p ys)
  any-append p [] ys = refl
  any-append p (x ∷ xs) ys = ground (arith, any-append p xs ys)

  pub any-reverse : (p : A → Bool) (xs : List A) → any p (reverse xs) ≡ any p xs
  any-reverse p [] = refl
  any-reverse p (x ∷ xs) =
      ground (arith, reverse-cons x xs, any-append p (reverse xs) (x ∷ []), any-reverse p xs)

  pub any-delete : (p d : A → Bool) (xs : List A) → any p xs ≡ false → any p (delete d xs) ≡ false
  any-delete p d [] h = refl
  any-delete p d (x ∷ xs) h = ground (arith, any-delete p d xs)

  pub any-delete_self : (p : A → Bool) (xs : List A) → any p (delete p xs) ≡ false
  any-delete_self p [] = refl
  any-delete_self p (x ∷ xs) = ground (arith, any-delete_self p xs)

  pub any-update :
      (p q : A → Bool) (f : A → A) (xs : List A)
      → ((a : A) → p (f a) ≡ p a)
      → any p (update q f xs) ≡ any p xs
  any-update p q f [] h = refl
  any-update p q f (x ∷ xs) h = ground (arith, h x, any-update p q f xs h)

  pub find-none : (p : A → Bool) (xs : List A) → find p xs ≡ none → any p xs ≡ false
  find-none p [] h = refl
  find-none p (x ∷ xs) h = ground (arith, find-none p xs)

  pub any→find-none : (p : A → Bool) (xs : List A) → any p xs ≡ false → find p xs ≡ none
  any→find-none p [] h = refl
  any→find-none p (x ∷ xs) h = ground (arith, any→find-none p xs)

  pub find-some : (p : A → Bool) (xs : List A) (a : A) → find p xs ≡ some a → p a ≡ true
  find-some p [] a h = cc
  find-some p (x ∷ xs) a h = ground (arith, find-some p xs a)

  pub find-append :
      (p : A → Bool) (xs ys : List A)
      → find p (xs ++ ys) ≡ elim (find p xs) [ none ↦ find p ys | some a ↦ some a ]
  find-append p [] ys = refl
  find-append p (x ∷ xs) ys = ground (arith, find-append p xs ys)

  -- A deletion that spares the rows searched for.
  pub find-delete :
      (p d : A → Bool) (xs : List A)
      → ((a : A) → p a ≡ true → d a ≡ false)
      → find p (delete d xs) ≡ find p xs
  find-delete p d [] h = refl
  find-delete p d (x ∷ xs) h = ground (arith, h x, find-delete p d xs h)

  -- An update that keeps the rows searched for where they are.
  pub find-update :
      (p q : A → Bool) (f : A → A) (xs : List A)
      → ((a : A) → p (f a) ≡ p a)
      → find p (update q f xs) ≡ Option.map (λ a. if q a then f a else a) (find p xs)
  find-update p q f [] h = refl
  find-update p q f (x ∷ xs) h = ground (arith, h x, find-update p q f xs h)

  pub Distinct-delete :
      (s : A → A → Bool) (d : A → Bool) (xs : List A) → Distinct s xs → Distinct s (delete d xs)
  Distinct-delete s d [] h = tt
  Distinct-delete s d (x ∷ xs) (h, t) =
      ground (arith, any-delete (s x) d xs h, Distinct-delete s d xs t)

  pub Distinct-update :
      (s : A → A → Bool) (q : A → Bool) (f : A → A) (xs : List A)
      → ((a b : A) → s (f a) b ≡ s a b)
      → ((a b : A) → s a (f b) ≡ s a b)
      → Distinct s xs
      → Distinct s (update q f xs)
  Distinct-update s q f [] l r h = tt
  Distinct-update s q f (x ∷ xs) l r (h, t) = elim (Bool-cases (q x)) [
    | inl e ↦
        rw (e, any-update (s (f x)) q f xs (r (f x)))
          (rw (fun_ext (l x)) h, Distinct-update s q f xs l r t)
    | inr e ↦ rw (e, any-update (s x) q f xs (r x)) (h, Distinct-update s q f xs l r t)
  ]

  -- A row that no row collides with may come last.
  pub Distinct-append :
      (s : A → A → Bool) (xs : List A) (a : A)
      → any (λ x. s x a) xs ≡ false
      → Distinct s xs
      → Distinct s (xs ++ a ∷ [])
  Distinct-append s [] a h d = (refl, tt)
  Distinct-append s (x ∷ xs) a h (k, d) =
      (ground (arith, any-append (s x) xs (a ∷ [])), Distinct-append s xs a (ground arith) d)

  -- Rows that fail a test are untouched by what it guards.
  pub delete-none : (p : A → Bool) (xs : List A) → any p xs ≡ false → delete p xs ≡ xs
  delete-none p [] h = refl
  delete-none p (x ∷ xs) h = ground (arith, delete-none p xs)

  pub select-delete :
      (p d : A → Bool) (xs : List A)
      → ((a : A) → p a ≡ true → d a ≡ false)
      → select p (delete d xs) ≡ select p xs
  select-delete p d [] h = refl
  select-delete p d (x ∷ xs) h = ground (arith, h x, select-delete p d xs h)

  pub select-append :
      (p : A → Bool) (xs ys : List A) → select p (xs ++ ys) ≡ select p xs ++ select p ys
  select-append p [] ys = refl
  select-append p (x ∷ xs) ys = ground (arith, select-append p xs ys)

  pub delete-append :
      (p : A → Bool) (xs ys : List A) → delete p (xs ++ ys) ≡ delete p xs ++ delete p ys
  delete-append p [] ys = refl
  delete-append p (x ∷ xs) ys = ground (arith, delete-append p xs ys)
