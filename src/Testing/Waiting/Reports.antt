-- ===== src/Testing/Waiting/Reports.antt =====
-- What a waiter reports, and when it is done (nameko/testing/services.py).
use nameko.Prelude.{
  ℕ, ◌≡◌, String, string_eq, inl, inr, Bool, true, some, List, [], ◌∷◌, head?, last?, arith, refl,
  ==-refl,
}
use nameko.Action.{Result}
use nameko.Testing.Waiting.{
  left, Waiter, Event, completes, tears_down, block_ends, new_waiter, run, on_worker_result,
  on_worker_teardown, end_block, step,
}
use nameko.Testing.Waiting.Invariant.{outcome_of, ctx_of, Torn, Inv, completed, run-Inv}

module _ {X A : Type 0} (method_name : String) (callback : ℕ → Result X A → Bool) where
  pub record Reports (events : List (Event X A)) (w : Waiter X A) : Type 0 where
    pub reported : w.result ≡ outcome_of (head? (completed method_name callback events new_waiter))
    pub current : w.worker_ctx ≡ ctx_of (last? (completed method_name callback events new_waiter))
    pub torn : w.phase ≡ left → Torn events (completed method_name callback events new_waiter)

  start-Inv : Inv {X = X} {A = A} [] [] new_waiter
  start-Inv = record { reported = refl; current = refl; torn = inl (refl, λ h. absurd (cc)) }

  -- Whatever happens in the container, a waiter reports the outcome of the first call that completes
  -- while it watches, and keeps the context of the last. It is left only when a worker whose call
  -- completed was torn down.
  pub run-Reports :
      (events : List (Event X A)) → Reports events (run method_name callback events new_waiter)
  run-Reports events =
      let i = run-Inv method_name callback events [] [] new_waiter start-Inv in
      record {
        reported = i.reported;
        current = i.current;
        torn = λ gone. elim i.torn [ inl q ↦ absurd (q.1 gone) | inr t ↦ t ];
      }

  abbrev pub two_calls : (a b : ℕ) (first second : Result X A) → List (Event X A)
  two_calls a b first second =
      completes a method_name first
      ∷ completes b method_name second
      ∷ tears_down b
      ∷ block_ends
      ∷ []

  -- Let the callback accept the calls of two workers. If the second is torn down and the block ends,
  -- then the waiter is left with the outcome of the first, which is not torn down.
  pub run-mixes :
      (a b : ℕ) (first second : Result X A)
      → callback a first ≡ true
      → callback b second ≡ true
      → let w = run method_name callback (two_calls a b first second) new_waiter in
        (w.phase ≡ left) × (w.result ≡ some first)
  unfolding run step on_worker_result on_worker_teardown end_block
  run-mixes a b first second h k =
      (ground (arith, ==-refl method_name, h, k), ground (arith, ==-refl method_name, h, k))
