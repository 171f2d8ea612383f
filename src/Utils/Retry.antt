-- ===== src/Utils/Retry.antt =====
-- `retry` of nameko/utils/retry.py: how often a function is called, and what is waited between.
pub mod Bounds
pub mod Schedule
use nameko.Prelude.{
  ℕ, zero, suc, ◌+◌, ◌*◌, ◌≤◌, ◌≡◌, ◌⊎◌, Bool, true, false, Option, none, some, List, [], ◌∷◌, ◌++◌,
  min, nat_eq, ltb, if◌then◌else◌, length, arith, refl, Bool-cases, inl, inr,
}
use nameko.Action.{Result, returned, raised}

-- The attributes of `RetryDelay`; delays are whole numbers. A backoff of 0 or None is 0, and so is a
-- maximum of 0 or None.
pub record RetryDelay : Type 0 where
  pub delay : ℕ
  pub backoff : ℕ
  pub max_delay : ℕ

abbrev is_zero : ℕ → Bool
is_zero zero = true
is_zero (suc _) = false

-- `next`: the delay to wait, and the new state
unfoldable pub next : RetryDelay → ℕ × RetryDelay
next d =
    let grown = if is_zero d.backoff then d.delay else d.delay * d.backoff in
    (if is_zero d.max_delay then grown else min grown d.max_delay, record d { delay = grown })

-- What the n-th call of the function does: it returns, or raises an exception that is among
-- `for_exceptions`, or another one.
pub data Outcome (A X : Type 0) : Type 0 where
  gives : A → Outcome A X
  expected : X → Outcome A X
  unexpected : X → Outcome A X

pub Outcome-cases :
    {A X : Type 0} (o : Outcome A X)
    → ((a : A) × (o ≡ gives a)) ⊎ ((e : X) × (o ≡ unexpected e)) ⊎ ((e : X) × (o ≡ expected e))
Outcome-cases (gives a) = inl (a, refl)
Outcome-cases (unexpected e) = inr (inl (e, refl))
Outcome-cases (expected e) = inr (inr (e, refl))

abbrev exhausted : ℕ → Option ℕ → Bool
exhausted counter none = false
exhausted counter (some max_attempts) = nat_eq counter max_attempts

-- The loop of the wrapper, from the state that `retry_delay` is in; `wrapped` gives the outcome of
-- each call by the counter. Without a maximum of attempts the wrapper may call for ever, so the run
-- is on fuel: `none` if it is used up. The result comes with what was slept, and the state of
-- `retry_delay`, which all calls of the decorated function share.
module _ {A X : Type 0} (wrapped : ℕ → Outcome A X) (max_attempts : Option ℕ) where
  unfoldable pub attempts : ℕ → ℕ → RetryDelay → Option (Result X A) × List ℕ × RetryDelay
  unfolding next
  attempts zero counter d = (none, [], d)
  attempts (suc fuel) counter d = elim (wrapped counter) [
    | gives a ↦ (some (returned a), [], d)
    | unexpected e ↦ (some (raised e), [], d)
    | expected e ↦
        let later = attempts fuel (counter + 1) (next d).1 in
        if exhausted counter max_attempts
        then (some (raised e), [], d)
        else (later.0, (next d).0 ∷ later.1, later.2)
  ]
