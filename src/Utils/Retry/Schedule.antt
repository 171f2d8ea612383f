-- ===== src/Utils/Retry/Schedule.antt =====
-- What a decorated function that keeps failing waits, in one call and in the next
-- (nameko/utils/retry.py).
use native.Mathlib.Nat.{mul_assoc}
use nameko.Prelude.{
  ℕ, zero, suc, ◌+◌, ◌*◌, ◌≡◌, Option, some, List, [], ◌∷◌, arith, min, if◌then◌else◌,
}
use nameko.Action.{Result, raised}
use nameko.Utils.Retry.{RetryDelay, Outcome, expected, next, attempts, is_zero}

abbrev pub power : ℕ → ℕ → ℕ
power b zero = 1
power b (suc k) = power b k * b

-- The delay after it was asked for k times, without and with the maximum.
abbrev pub grown : RetryDelay → ℕ → ℕ
grown d k = if is_zero d.backoff then d.delay else d.delay * power d.backoff k

abbrev pub waited : RetryDelay → ℕ → ℕ
waited d k = if is_zero d.max_delay then grown d k else min (grown d k) d.max_delay

-- n waits, after k earlier ones
abbrev pub schedule : RetryDelay → ℕ → ℕ → List ℕ
schedule d k zero = []
schedule d k (suc n) = waited d (suc k) ∷ schedule d (suc k) n

abbrev pub after : RetryDelay → ℕ → RetryDelay
after d k = record d { delay = grown d k }

next-after : (d : RetryDelay) (k : ℕ) → next (after d k) ≡ (waited d (suc k), after d (suc k))
unfolding next
next-after d k = ground (arith, mul_assoc d.delay (power d.backoff k) d.backoff)

add_zero : (k : ℕ) → k + 0 ≡ k
add_zero k = omega arith

zero_add : (n : ℕ) → 0 + n ≡ n
zero_add n = omega arith

add_suc : (k n : ℕ) → k + suc n ≡ suc k + n
add_suc k n = omega arith

module _ {A X : Type 0} (wrapped : ℕ → Outcome A X) (error : ℕ → X)
    (fails : (n : ℕ) → wrapped n ≡ expected (error n)) (max_attempts : ℕ) where
  failing :
      (left counter k : ℕ) (d : RetryDelay)
      → left + counter ≡ max_attempts
      → attempts wrapped (some max_attempts) (suc left) counter (after d k)
        ≡ (some (raised (error max_attempts)), schedule d k left, after d (k + left))
  unfolding attempts
  failing zero counter k d e = ground (arith, fails counter, e, add_zero k)
  failing (suc left) counter k d e =
      let rest = failing left (counter + 1) (suc k) d (omega (arith, e)) in
      ground (arith, fails counter, e, next-after d k, rest, add_suc k left)

  after_none : (d : RetryDelay) → after d 0 ≡ d
  after_none d = ground arith

  abbrev pub call : RetryDelay → Option (Result X A) × List ℕ × RetryDelay
  call d = attempts wrapped (some max_attempts) (suc max_attempts) 0 d

  call_lem :
      (k : ℕ) (d : RetryDelay)
      → call (after d k) ≡ (
        some (raised (error max_attempts)),
        schedule d k max_attempts,
        after d (k + max_attempts),
      )
  call_lem k d = failing max_attempts 0 k d (omega arith)

  -- A decorated function that fails whenever it is called waits the delay times the powers of the
  -- backoff, from the first power on and up to the maximum, and then raises its last exception. When it
  -- is called once more it goes on with the powers after those, not with the first.
  pub call-schedule :
      (d : RetryDelay)
      → ((call d).0 ≡ some (raised (error max_attempts)))
        × ((call d).1 ≡ schedule d 0 max_attempts)
        × ((call (call d).2).0 ≡ some (raised (error max_attempts)))
        × ((call (call d).2).1 ≡ schedule d max_attempts max_attempts)
  call-schedule d =
      ground (arith, call_lem 0 d, call_lem max_attempts d, after_none d, zero_add max_attempts)
