-- ===== src/Concurrency.antt =====
-- `fail_fast_imap` and `SpawningProxy` of nameko/utils/concurrency: a call on each of several items,
-- every one in a green thread of its own.
mod Examples
pub mod FailFast
pub mod Lost
pub mod Reading
pub mod Soundness
use nameko.Prelude.{ℕ, ℕ_eq, false, Option, none, some, List, [], ◌∷◌, ◌++◌, if◌then◌else◌, ◌≡◌}
use nameko.Prelude.Set.{contains, discard}
use nameko.Exceptions.Registry.{Exc}
use nameko.Action.{Result, returned, raised}

-- Where the generator is: it waits in `result_queue.get()`, its loop has ended, or it has thrown.
pub data Status : Type 0 where
  waiting finished : Status
  thrown : Exc → Status

-- The generator's variables, with threads by number: the results that it yielded, and the threads
-- that it killed.
pub record Imap (R : Type 0) : Type 0 where
  pub spawned_threads : List ℕ
  pub result_queue : List (Result Exc R)
  pub yielded : List R
  pub killed : List ℕ
  pub status : Status

-- The test of `while spawned_threads`
abbrev next_status : List ℕ → Status
next_status [] = finished
next_status (_ ∷ _) = waiting

module _ {R : Type 0} where
  -- The call, up to its first wait: a thread for each item.
  unfoldable pub fail_fast_imap : List ℕ → Imap R
  fail_fast_imap threads = record {
    spawned_threads = threads;
    result_queue = [];
    yielded = [];
    killed = [];
    status = next_status threads;
  }

  -- `handle_result`, when a thread has finished; `none` for a thread that runs no more.
  unfoldable pub handle_result : ℕ → Result Exc R → Imap R → Option (Imap R)
  handle_result thread outcome s =
      if contains thread s.spawned_threads
      then some (record s {
        spawned_threads = discard thread s.spawned_threads;
        result_queue = s.result_queue ++ outcome ∷ [];
      })
      else none

  -- The rounds of the loop until it waits again or ends: the queue is read for as long as it holds
  -- something and threads are left.
  unfoldable pub rounds : List (Result Exc R) → Imap R → Imap R
  rounds [] s = record s { result_queue = [] }
  rounds (raised exc ∷ queue) s = record s {
    result_queue = queue;
    killed = s.spawned_threads;
    status = thrown exc;
  }
  rounds (returned r ∷ queue) s =
      let yielding = record s { yielded = s.yielded ++ r ∷ [] } in
      elim s.spawned_threads [
        | [] ↦ record yielding { result_queue = queue; status = finished }
        | _ ∷ _ ↦ rounds queue yielding
      ]

  -- The generator goes on once the queue holds something; `none` while it does not.
  unfoldable pub resume : Imap R → Option (Imap R)
  unfolding rounds
  resume s = elim s.status [
    | waiting ↦ elim s.result_queue [ [] ↦ none | _ ∷ _ ↦ some (rounds s.result_queue s) ]
    | finished ↦ none
    | thrown exc ↦ none
  ]

  -- `list(fail_fast_imap(...))`; `none` while the call waits.
  unfoldable pub outcome : Imap R → Option (Result Exc (List R))
  outcome s = elim s.status [
    | waiting ↦ none
    | finished ↦ some (returned s.yielded)
    | thrown exc ↦ some (raised exc)
  ]

  -- A thread finishes by itself, or the generator goes on. A thread that is killed exits with
  -- GreenletExit, which `handle_result` does not catch: nothing is put into the queue.
  pub data Step (s t : Imap R) : Type 0 where
    finishes :
        (thread : ℕ) (o : Result Exc R)
        → contains thread s.killed ≡ false
        → handle_result thread o s ≡ some t
        → Step s t
    resumes : resume s ≡ some t → Step s t

  pub data Reach (s : Imap R) : Imap R → Type 0 where
    here : Reach s s
    next : {t u : Imap R} → Reach s t → Step t u → Reach s u
