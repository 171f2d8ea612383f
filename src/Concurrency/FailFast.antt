-- ===== src/Concurrency/FailFast.antt =====
-- What `fail_fast_imap` comes to (nameko/utils/concurrency).
use nameko.Prelude.{
  ◌⊎◌, Option-cases, some, ℕ, ℕ_eq, ◌*◌, ◌≤◌, ◌≡◌, inl, inr, none, List, [], ◌∷◌, ◌++◌, length,
  refl, arith, ==-refl,
}
use nameko.Prelude.Set.{contains, discard, Distinct}
use nameko.Exceptions.Registry.{Exc}
use nameko.Action.{Result}
use nameko.Concurrency.{
  waiting, Imap, fail_fast_imap, handle_result, rounds, resume, outcome, Step, finishes, resumes,
  Reach,
}
use nameko.Concurrency.Soundness.{
  work_left, steps, IsSound, fail_fast_imap-IsSound, Reach-IsSound, List-cases, Status-cases,
}

module _ {R : Type 0} where
  start_work :
      (threads : List ℕ) (s : Imap R)
      → s ≡ fail_fast_imap threads
      → work_left s ≤ 2 * length threads
  unfolding fail_fast_imap
  start_work [] s e = ground (arith, e)
  start_work (t ∷ threads) s e = ground (arith, e)

  outcome_waits : (s : Imap R) → outcome s ≡ none → s.status ≡ waiting
  unfolding outcome
  outcome_waits s h = elim (Status-cases s.status) [
    | inl w ↦ w
    | inr (inl q) ↦ ground (arith, q, h)
    | inr (inr (exc, q)) ↦ ground (arith, q, h)
  ]

  -- The thread at the head can finish, with any outcome.
  head_finishes :
      (t : ℕ) (rest : List ℕ) (o : Result Exc R) (s : Imap R)
      → s.spawned_threads ≡ t ∷ rest
      → s.killed ≡ []
      → (u : Imap R) × Step s u
  unfolding handle_result contains
  head_finishes t rest o s e k = (
    record s {
      spawned_threads = discard t s.spawned_threads;
      result_queue = s.result_queue ++ o ∷ [];
    },
    finishes t o (ground (arith, k)) (ground (arith, e, ==-refl t)),
  )

  queue_resumes :
      (o : Result Exc R) (queue : List (Result Exc R)) (s : Imap R)
      → s.status ≡ waiting
      → s.result_queue ≡ o ∷ queue
      → (u : Imap R) × Step s u
  unfolding resume
  queue_resumes o queue s w e = (rounds s.result_queue s, resumes (ground (arith, w, e)))

  progress :
      (o : Result Exc R) (s : Imap R)
      → IsSound s
      → ((p : Result Exc (List R)) × (outcome s ≡ some p)) ⊎ ((t : Imap R) × Step s t)
  progress o s i = elim (Option-cases (outcome s)) [
    | inr (p, e) ↦ inl (p, e)
    | inl h ↦
        let w = outcome_waits s h in
        elim (List-cases s.result_queue) [
          | inr (p, queue, e) ↦ inr (queue_resumes p queue s w e)
          | inl e ↦ elim (List-cases s.spawned_threads) [
            | inr (t, rest, e') ↦ inr (head_finishes t rest o s e' (i.unkilled w))
            | inl e' ↦ absurd (ground (arith, i.busy w, e, e'))
          ]
        ]
  ]

  -- The call ends: no run of distinct threads has more than two steps for each, and it has come to
  -- an outcome, or the generator can go on, or some thread runs that can finish.
  pub imap-ends :
      (threads : List ℕ) (s : Imap R) (o : Result Exc R)
      → Distinct threads
      → (r : Reach (fail_fast_imap threads) s)
      → (steps r ≤ 2 * length threads)
        × (((p : Result Exc (List R)) × (outcome s ≡ some p)) ⊎ ((t : Imap R) × Step s t))
  imap-ends threads s o d r =
      let (sound, spent) =
        Reach-IsSound (fail_fast_imap threads) s (fail_fast_imap-IsSound threads d) r in
      (omega (arith, spent, start_work threads (fail_fast_imap threads) refl), progress o s sound)
