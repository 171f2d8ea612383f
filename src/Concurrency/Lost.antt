-- ===== src/Concurrency/Lost.antt =====
-- Outcomes that `fail_fast_imap` does not read (nameko/utils/concurrency).
use nameko.Prelude.{ℕ, ℕ_eq, ◌≡◌, false, some, List, [], ◌∷◌, ◌++◌, refl, arith, ==-refl}
use mathlib.Core.List.{append-nil, append_assoc}
use nameko.Prelude.Set.{contains, discard, Distinct}
use nameko.Exceptions.Registry.{Exc}
use nameko.Action.{Result, returned}
use nameko.Concurrency.{
  waiting, finished, Imap, fail_fast_imap, handle_result, rounds, resume, outcome, finishes,
  resumes, Reach, here, next,
}

discard_absent : (t : ℕ) (s : List ℕ) → contains t s ≡ false → discard t s ≡ s
unfolding contains discard
discard_absent t [] h = refl
discard_absent t (x ∷ s) h = ground (arith, discard_absent t s)

discard_head : (t : ℕ) (s : List ℕ) → contains t s ≡ false → discard t (t ∷ s) ≡ s
unfolding discard
discard_head t s h = ground (arith, ==-refl t, discard_absent t s h)

module _ {R : Type 0} where
  -- Threads with what each comes to.
  abbrev threads_of : List (ℕ × Result Exc R) → List ℕ
  threads_of [] = []
  threads_of ((t, o) ∷ work) = t ∷ threads_of work

  abbrev outcomes_of : List (ℕ × Result Exc R) → List (Result Exc R)
  outcomes_of [] = []
  outcomes_of ((t, o) ∷ work) = o ∷ outcomes_of work

  abbrev waiting_state : List ℕ → List (Result Exc R) → Imap R
  waiting_state threads queue = record {
    spawned_threads = threads;
    result_queue = queue;
    yielded = [];
    killed = [];
    status = waiting;
  }

  one_finishes :
      (t : ℕ) (o : Result Exc R) (threads : List ℕ) (queue : List (Result Exc R))
      → contains t threads ≡ false
      → handle_result t o (waiting_state (t ∷ threads) queue)
        ≡ some (waiting_state threads (queue ++ o ∷ []))
  unfolding handle_result contains
  one_finishes t o threads queue h = ground (arith, ==-refl t, discard_head t threads h)

  all_finish :
      (work : List (ℕ × Result Exc R)) (queue : List (Result Exc R)) (s : Imap R)
      → Distinct (threads_of work)
      → Reach s (waiting_state (threads_of work) queue)
      → Reach s (waiting_state [] (queue ++ outcomes_of work))
  unfolding contains
  all_finish [] queue s d r = rw (append-nil queue) r
  all_finish ((t, o) ∷ work) queue s d r =
      let step = finishes t o refl (one_finishes t o (threads_of work) queue d.0) in
      let later = all_finish work (queue ++ o ∷ []) s d.1 (next r step) in
      rw (append_assoc queue (o ∷ []) (outcomes_of work)) at later

  -- If all threads finish before the generator goes on, and the first has returned, then the call
  -- returns that result alone: what the other threads returned or raised stays in the queue.
  pub imap-loses :
      (t : ℕ) (result : R) (work : List (ℕ × Result Exc R))
      → Distinct (t ∷ threads_of work)
      → (s : Imap R) × Reach (fail_fast_imap (t ∷ threads_of work)) s
        × (outcome s ≡ some (returned (result ∷ [])))
        × (s.result_queue ≡ outcomes_of work)
  unfolding fail_fast_imap resume rounds outcome
  imap-loses t result work d = (
    record {
      spawned_threads = [];
      result_queue = outcomes_of work;
      yielded = result ∷ [];
      killed = [];
      status = finished;
    },
    next (all_finish ((t, returned result) ∷ work) [] (fail_fast_imap (t ∷ threads_of work)) d here)
        (resumes refl),
    refl,
    refl,
  )
