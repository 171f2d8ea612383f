-- ===== src/Utils/Retry/Bounds.antt =====
-- The length of the loop of `retry` (nameko/utils/retry.py).
use nameko.Prelude.{ℕ, zero, suc, ◌+◌, ◌≤◌, ◌≡◌, some, length, arith, Bool-cases, inl, inr, nat_eq}
use nameko.Action.{Result, returned, raised}
use nameko.Utils.Retry.{RetryDelay, Outcome, next, attempts, Outcome-cases}

module _ {A X : Type 0} (wrapped : ℕ → Outcome A X) (max_attempts : ℕ) where
  attempts_left :
      (fuel counter : ℕ) (d : RetryDelay)
      → counter ≤ max_attempts
      → suc max_attempts ≤ fuel + counter
      → (outcome : Result X A) × ((attempts wrapped (some max_attempts) fuel counter d).0
          ≡ some outcome)
        × (length (attempts wrapped (some max_attempts) fuel counter d).1 + counter ≤ max_attempts)
  unfolding attempts
  attempts_left zero counter d h k = absurd (omega arith)
  attempts_left (suc fuel) counter d h k = elim (Outcome-cases (wrapped counter)) [
    | inl (a, e) ↦ (returned a, ground (arith, e), ground (arith, e, h))
    | inr (inl (x, e)) ↦ (raised x, ground (arith, e), ground (arith, e, h))
    | inr (inr (x, e)) ↦ elim (Bool-cases (nat_eq counter max_attempts)) [
      | inl last ↦ (raised x, ground (arith, e, last), ground (arith, e, last, h))
      | inr more ↦
          let (outcome, ends, few) =
            attempts_left fuel (counter + 1) (next d).1 (ground (arith, more, h)) (omega arith) in
          (outcome, ground (arith, e, more, ends), ground (arith, e, more, few))
    ]
  ]

  -- With a maximum of attempts a call of the decorated function returns or raises, whatever the
  -- function does, after at most that many retries, each after one sleep.
  pub attempts-ends :
      (d : RetryDelay)
      → (outcome : Result X A) × ((attempts wrapped (some max_attempts) (suc max_attempts) 0 d).0
          ≡ some outcome)
        × (length (attempts wrapped (some max_attempts) (suc max_attempts) 0 d).1 ≤ max_attempts)
  attempts-ends d =
      let (outcome, ends, few) = attempts_left (suc max_attempts) 0 d (omega arith) (omega arith) in
      (outcome, ends, omega (arith, few))
