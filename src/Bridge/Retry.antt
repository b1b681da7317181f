-- ===== src/Bridge/Retry.antt =====
-- crates/bridge/src/delivery.rs: how often a message is posted, and when it is tried again.
use pushcompat.Prelude.{
  ℕ, zero, suc, ◌+◌, ◌*◌, ◌≤◌, ◌≡◌, refl, List, [], ◌∷◌, Option, none, some, length, ap, arith,
  Option-cases, inl, inr,
}
use pushcompat.Bridge.Delivery.{Response, Forwarded, gave_up, verdict, forward_loop, forward_to_up}

-- The answer of the first attempt that decides, among the first `n`.
abbrev pub first_verdict : ℕ → (ℕ → Response) → Option Forwarded
first_verdict zero responses = none
first_verdict (suc n) responses = elim (verdict (responses 0)) [
  | some f ↦ some f
  | none ↦ first_verdict n (λ k. responses (suc k))
]

abbrev pub or_gave_up : Option Forwarded → Forwarded
or_gave_up none = gave_up
or_gave_up (some f) = f

-- The delays slept: one before each attempt but the first.
abbrev pub total : List ℕ → ℕ
total [] = 0
total (d ∷ ds) = d + total ds

forward_loop-first :
    (left delay : ℕ) (responses : ℕ → Response)
    → (forward_loop left delay responses).result ≡ or_gave_up (first_verdict left responses)
unfolding forward_loop
forward_loop-first zero delay responses = refl
forward_loop-first (suc zero) delay responses = elim (Option-cases (verdict (responses 0))) [
  | inl e ↦ rw (e, forward_loop, first_verdict) refl
  | inr (f, e) ↦ rw (e, forward_loop, first_verdict) refl
]
forward_loop-first (suc (suc left)) delay responses = elim (Option-cases (verdict (responses 0))) [
  | inl e ↦
      rw (e, forward_loop, first_verdict)
        (forward_loop-first (suc left) (delay * 3) (λ k. responses (suc k)))
  | inr (f, e) ↦ rw (e, forward_loop, first_verdict) refl
]

-- What `n` rounds of the loop may sleep for, from a delay on.
abbrev pub all_delays : ℕ → ℕ → ℕ
all_delays zero delay = 0
all_delays (suc n) delay = delay + all_delays n (delay * 3)

forward_loop-delays :
    (left delay : ℕ) (responses : ℕ → Response)
    → let f = forward_loop (suc left) delay responses in
      (f.posts ≡ suc (length f.delays))
      × (length f.delays ≤ left)
      × (total f.delays ≤ all_delays left delay)
unfolding forward_loop
forward_loop-delays zero delay responses = elim (Option-cases (verdict (responses 0))) [
  | inl e ↦ rw (e, forward_loop) (refl, omega arith, omega arith)
  | inr (f, e) ↦ rw (e, forward_loop) (refl, omega arith, omega arith)
]
forward_loop-delays (suc left) delay responses = elim (Option-cases (verdict (responses 0))) [
  | inl e ↦
      let (p, m, n) = forward_loop-delays left (delay * 3) (λ k. responses (suc k)) in
      rw (e, forward_loop) (ap suc p, omega arith, omega arith)
  | inr (f, e) ↦ rw (e, forward_loop) (refl, omega arith, omega arith)
]

-- A message is posted to a UnifiedPush endpoint at most four times, once more than there are delays.
-- The result is that of the first of four responses that is a success or a lasting refusal, and a
-- failure if none is. At most three delays come between, of 6.5 seconds together.
pub forward_to_up-outcome :
    (responses : ℕ → Response)
    → let f = forward_to_up responses in
      (f.result ≡ or_gave_up (first_verdict 4 responses))
      × (f.posts ≡ suc (length f.delays))
      × (length f.delays ≤ 3)
      × (total f.delays ≤ 6500)
unfolding forward_to_up
forward_to_up-outcome responses =
    let (p, m, n) = forward_loop-delays 3 500 responses in
    (forward_loop-first 4 500 responses, p, m, n)
