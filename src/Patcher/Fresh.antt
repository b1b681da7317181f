-- ===== src/Patcher/Fresh.antt =====
-- crates/patcher/src/apk.rs: the next number of a dex file is free.
use pushcompat.Prelude.{
  ℕ, zero, suc, ◌+◌, ◌≤◌, ◌<◌, ◌≡◌, refl, ap, ◌∙◌, subst, ◌⊎◌, leb, ltb, ◌==◌, ==_iff, inl, inr,
  Bool, true, false, if◌then◌else◌, Bool-cases, arith,
}
use pushcompat.Patcher.Dex.{highest_from, get_next_dex_number}

highest_bounds :
    (exists : ℕ → Bool) (i count highest : ℕ)
    → highest < i
    → (highest ≤ highest_from exists i count highest)
      × (highest_from exists i count highest < i + count)
unfolding highest_from
highest_bounds exists i zero highest h = (omega arith, omega arith)
highest_bounds exists i (suc count) highest h = elim (Bool-cases (exists i)) [
  | inl e ↦
      let (l, m) = highest_bounds exists (suc i) count i (omega arith) in
      rw (e, highest_from) (omega (arith, l), omega (arith, m))
  | inr e ↦
      let (l, m) = highest_bounds exists (suc i) count highest (omega arith) in
      rw (e, highest_from) (l, omega (arith, m))
]

-- One number more: a directory that was found, or not.
counted :
    (exists : ℕ → Bool) (i count highest : ℕ)
    → highest_from exists i (suc count) highest
      ≡ highest_from exists (suc i) count (if exists i then i else highest)
unfolding highest_from
counted exists i count highest = refl

above_highest :
    (exists : ℕ → Bool) (i count highest j : ℕ)
    → highest < i
    → i ≤ j
    → j < i + count
    → highest_from exists i count highest < j
    → exists j ≡ false
above_highest exists i zero highest j h a b c = ground arith
above_highest exists i (suc count) highest j h a b c = elim (Bool-cases (exists i)) [
  | inl e ↦
      let found : highest_from exists (suc i) count i < j =
        subst (λ m. highest_from exists (suc i) count m < j) (rw e refl)
          (subst (λ m. m < j) (counted exists i count highest) c) in
      let (l, m) = highest_bounds exists (suc i) count i (omega arith) in
      above_highest exists (suc i) count i j (omega arith) (omega (arith, l, found)) (omega arith)
        found
  | inr e ↦
      let none_yet : highest_from exists (suc i) count highest < j =
        subst (λ m. highest_from exists (suc i) count m < j) (rw e refl)
          (subst (λ m. m < j) (counted exists i count highest) c) in
      elim (Bool-cases (i == j)) [
        | inl k ↦ subst (λ m. exists m ≡ false) ((==_iff i j).0 k) e
        | inr k ↦
            above_highest exists (suc i) count highest j (omega arith) (ground arith) (omega arith)
              none_yet
      ]
]

-- What the highest number is: the one so far, or that of a directory.
highest_exists :
    (exists : ℕ → Bool) (i count highest : ℕ)
    → (highest_from exists i count highest ≡ highest)
      ⊎ (exists (highest_from exists i count highest) ≡ true)
unfolding highest_from
highest_exists exists i zero highest = inl refl
highest_exists exists i (suc count) highest = elim (Bool-cases (exists i)) [
  | inl e ↦
      rw (e, highest_from)
        (elim (highest_exists exists (suc i) count i) [
          | inl k ↦ inr (ap exists k ∙ e)
          | inr k ↦ inr k
        ])
  | inr e ↦ rw (e, highest_from) (highest_exists exists (suc i) count highest)
]

rest_free :
    (exists : ℕ → Bool) (j : ℕ) → (j ≤ highest_from exists 2 19 1) ⊎ ((20 < j) ⊎ (exists j ≡ false))
rest_free exists j = elim (Bool-cases (leb j (highest_from exists 2 19 1))) [
  | inl e ↦ inl (ground arith)
  | inr e ↦ inr (elim (Bool-cases (ltb 20 j)) [
    | inl k ↦ inl (ground arith)
    | inr k ↦
        let (l, m) = highest_bounds exists 2 19 1 (omega arith) in
        let above : highest_from exists 2 19 1 < j = ground arith in
        let most : j ≤ 20 = ground arith in
        inr (above_highest exists 2 19 1 j (omega arith) (omega (arith, l)) (omega arith) above)
  ])
]

-- The next number is the one behind the highest, from 1 to 20, that has a directory, or behind 1;
-- a number above that highest one has no directory, unless it is above 20.
pub get_next_dex_number-free :
    (exists : ℕ → Bool) (j : ℕ)
    → (highest : ℕ) × (get_next_dex_number exists ≡ highest + 1)
      × (1 ≤ highest)
      × (highest ≤ 20)
      × ((highest ≡ 1) ⊎ (exists highest ≡ true))
      × ((j ≤ highest) ⊎ ((20 < j) ⊎ (exists j ≡ false)))
unfolding get_next_dex_number
get_next_dex_number-free exists j =
    let (l, m) = highest_bounds exists 2 19 1 (omega arith) in
    (
      highest_from exists 2 19 1,
      refl,
      l,
      omega (arith, m),
      highest_exists exists 2 19 1,
      rest_free exists j,
    )
