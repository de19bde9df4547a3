-- ===== src/Card/Retry.antt =====
-- RetryOnCardLinkError (util/retry.h): another attempt after a card_link_error that is
-- retryable. The pauses between the attempts are left out. `S` is whatever the attempts change.
use opencie_pkcs.Base.{
  ℕ, zero, suc, ◌+◌, ◌≡◌, ◌<◌, refl, ◌∙◌, Bool, true, false, Exception, card_link_error,
  logged_error, Result, ok, throw, ltb, if◌then◌else◌, arith, ◌==◌, Bool-cases, ==_iff, lt→ltb, inl,
  inr, ◌⊎◌,
}

abbrev pub is_retryable : Exception → Bool
is_retryable (card_link_error b) = b
is_retryable e = false

module _ {S A : Type 0} where
  -- What follows an attempt, with `again` for the rest of the loop.
  abbrev pub after_attempt : ℕ → Result A × S → (S → Result A × S) → Result A × S
  after_attempt left (ok a, s) again = (ok a, s)
  after_attempt left (throw e, s) again =
      if is_retryable e then (if ltb 0 left then again s else (throw e, s)) else (throw e, s)

  abbrev pub Failed : Result A × S → Type 0
  Failed r = (e : Exception) × ((r.0 ≡ throw e) × (is_retryable e ≡ true))

  Failed-cases :
      (left : ℕ) (r : Result A × S) (again : S → Result A × S)
      → (Failed r × (after_attempt left r again ≡ (if ltb 0 left then again r.1 else r)))
        ⊎ ((Failed r → ⊥) × (after_attempt left r again ≡ r))
  Failed-cases left (ok a, s) again = inr (λ f. absurd (ground (arith, f.1.0)), refl)
  Failed-cases left (throw e, s) again = elim (Bool-cases (is_retryable e)) [
    | inl q ↦ inl ((e, (refl, q)), rw q refl)
    | inr q ↦ inr (λ f. absurd (ground (arith, q, f.1.0, f.1.1)), rw q refl)
  ]

module _ {S A : Type 0} (fn : ℕ → S → Result A × S) where
  -- The loop at `attempt`, with `left` attempts to go.
  unfoldable pub retry_loop : ℕ → ℕ → S → Result A × S
  retry_loop attempt zero s = (throw logged_error, s)
  retry_loop attempt (suc left) s =
      after_attempt left (fn attempt s) (λ s1. retry_loop (attempt + 1) left s1)

  unfoldable pub retry : ℕ → S → Result A × S
  unfolding retry_loop
  retry max_attempts s = retry_loop 1 max_attempts s

  -- The state after so many attempts.
  unfoldable pub attempt_state : ℕ → S → S
  attempt_state zero s = s
  attempt_state (suc n) s = (fn (n + 1) (attempt_state n s)).1

  abbrev pub attempted : ℕ → S → Result A × S
  attempted n s = fn (n + 1) (attempt_state n s)

  Failed-extend :
      (done : ℕ) (s : S)
      → ((n : ℕ) → n < done → Failed (attempted n s))
      → Failed (attempted done s)
      → (n : ℕ) → n < suc done
      → Failed (attempted n s)
  Failed-extend done s before f n h = elim (Bool-cases (n == done)) [
    | inl q ↦ rw ((==_iff n done).0 q) f
    | inr q ↦ before n (ground (arith, q))
  ]

  -- The loop stops at one attempt, all before it failed with a retryable error, and it stops on
  -- such an error only at the last attempt.
  retry_loop_lem :
      (done left : ℕ) (s : S)
      → ((n : ℕ) → n < done → Failed (attempted n s))
      → (k : ℕ) × ((k < done + suc left)
          × ((retry_loop (done + 1) (suc left) (attempt_state done s) ≡ attempted k s)
              × (((n : ℕ) → n < k → Failed (attempted n s))
                  × (Failed (attempted k s) → k + 1 ≡ done + suc left))))
  unfolding retry_loop attempt_state
  retry_loop_lem done zero s before =
      elim (Failed-cases zero (attempted done s) (λ s1. retry_loop (done + 1 + 1) zero s1)) [
        | inl f ↦ (done, (omega arith, (f.1, (before, λ _. omega arith))))
        | inr f ↦ (done, (omega arith, (f.1, (before, λ _. omega arith))))
      ]
  retry_loop_lem done (suc left) s before =
      elim (Failed-cases (suc left) (attempted done s)
        (λ s1. retry_loop (done + 1 + 1) (suc left) s1)) [
          | inl f ↦
              let rest = retry_loop_lem (suc done) left s (Failed-extend done s before f.0) in
              let next : done + 1 + 1 ≡ suc done + 1 = omega arith in
              let more : ltb 0 (suc left) ≡ true = lt→ltb 0 (suc left) (omega arith) in
              (
                rest.0,
                (
                  omega (arith, rest.1.0),
                  (
                    f.1 ∙ rw (more, next) rest.1.1.0,
                    (rest.1.1.1.0, λ g. omega (arith, rest.1.1.1.1 g)),
                  ),
                ),
              )
          | inr f ↦ (done, (omega arith, (f.1, (before, λ g. absurd (f.0 g)))))
        ]

  -- With at least one attempt allowed, RetryOnCardLinkError ends as one of its attempts does. All
  -- attempts before that one failed with a retryable card_link_error, and it is the last one
  -- allowed if it failed so too.
  pub retry_lem :
      (max_attempts : ℕ) (s : S)
      → 0 < max_attempts
      → (k : ℕ) × ((k < max_attempts)
          × ((retry max_attempts s ≡ attempted k s)
              × (((n : ℕ) → n < k → Failed (attempted n s))
                  × (Failed (attempted k s) → k + 1 ≡ max_attempts))))
  unfolding retry attempt_state
  retry_lem zero s pos = absurd (omega arith)
  retry_lem (suc left) s pos =
      let found = retry_loop_lem 0 left s (λ n h. absurd (omega arith)) in
      (
        found.0,
        (
          omega (arith, found.1.0),
          (found.1.1.0, (found.1.1.1.0, λ g. omega (arith, found.1.1.1.1 g))),
        ),
      )
