-- ===== src/Testing/Waiting.antt =====
-- `WaitResult` and `wait_for_call` of nameko/testing/waiting.py, and `entrypoint_waiter` of
-- nameko/testing/services.py, over what happens in the container while it waits. The timeout is left
-- out.
pub mod Invariant
pub mod Reports
use nameko.Prelude.{
  ℕ, zero, suc, ◌+◌, String, string_eq, ◌==◌, nat_eq, Bool, true, false, ◌&&◌, Option, none, some,
  List, [], ◌∷◌, if◌then◌else◌,
}
use nameko.Action.{Result, returned, raised}

-- `res` and `exc_info`: what was sent, if anything was.
abbrev pub WaitResult : Type 0 → Type 0 → Type 0
WaitResult X A = Option (Result X A)

module _ {X A : Type 0} where
  -- `WaitResult.send`
  abbrev pub send : Result X A → WaitResult X A → WaitResult X A
  send outcome none = some outcome
  send outcome (some sent) = some sent

-- Where the `with` statement is: in its block, at the `acquire` of the inner and of the outer
-- `wait_for_call`, or behind it.
pub data Phase : Type 0 where
  in_block : Phase
  for_result : Phase
  for_teardown : Phase
  left : Phase

-- A worker context is a number. `results` and `teardowns` are the counts of the semaphores.
pub record Waiter (X A : Type 0) : Type 0 where
  pub result : WaitResult X A
  pub worker_ctx : Option ℕ
  pub results : ℕ
  pub teardowns : ℕ
  pub phase : Phase

-- A worker has a result, or is torn down; the block ends; or the thread that waits goes on.
pub data Event (X A : Type 0) : Type 0 where
  completes : ℕ → String → Result X A → Event X A
  tears_down : ℕ → Event X A
  block_ends : Event X A
  goes_on : Event X A

-- The patch of `_worker_result` is undone when the inner `with` statement is left.
abbrev pub watches_results : Phase → Bool
watches_results in_block = true
watches_results for_result = true
watches_results _ = false

abbrev pub watches_teardowns : Phase → Bool
watches_teardowns left = false
watches_teardowns _ = true

-- `waiter_result.worker_ctx is worker_ctx`
abbrev pub is_ctx : ℕ → Option ℕ → Bool
is_ctx ctx none = false
is_ctx ctx (some c) = nat_eq c ctx

module _ {X A : Type 0} where
  abbrev pub new_waiter : Waiter X A
  new_waiter = record {
    result = none;
    worker_ctx = none;
    results = 0;
    teardowns = 0;
    phase = in_block;
  }

  -- `waiter_result.send` and `sem.release`
  abbrev pub complete_with : ℕ → Result X A → Waiter X A → Waiter X A
  complete_with ctx outcome w = record w {
    worker_ctx = some ctx;
    result = send outcome w.result;
    results = suc w.results;
  }

  unfoldable pub on_worker_teardown : ℕ → Waiter X A → Waiter X A
  on_worker_teardown ctx w =
      if watches_teardowns w.phase && is_ctx ctx w.worker_ctx
      then record w { teardowns = suc w.teardowns }
      else w

  -- `sem.acquire()` of the outer `wait_for_call`
  abbrev pub acquire_teardown : ℕ → Waiter X A → Waiter X A
  acquire_teardown zero w = record w { phase = for_teardown }
  acquire_teardown (suc n) w = record w { teardowns = n; phase = left }

  -- `sem.acquire()` of the inner one, and then that
  abbrev pub acquire_result : ℕ → Waiter X A → Waiter X A
  acquire_result zero w = record w { phase = for_result }
  acquire_result (suc n) w = acquire_teardown w.teardowns (record w { results = n })

  abbrev pub proceed : Phase → Waiter X A → Waiter X A
  proceed in_block w = w
  proceed for_result w = acquire_result w.results w
  proceed for_teardown w = acquire_teardown w.teardowns w
  proceed left w = w

  unfoldable pub go_on : Waiter X A → Waiter X A
  go_on w = proceed w.phase w

  abbrev pub leave_block : Phase → Waiter X A → Waiter X A
  leave_block in_block w = acquire_result w.results w
  leave_block for_result w = w
  leave_block for_teardown w = w
  leave_block left w = w

  unfoldable pub end_block : Waiter X A → Waiter X A
  end_block w = leave_block w.phase w

  -- With the name of the method, and the callback, or one that is always true.
  module _ (method_name : String) (callback : ℕ → Result X A → Bool) where
    abbrev pub is_complete : ℕ → String → Result X A → Bool
    is_complete ctx method outcome = method == method_name && callback ctx outcome

    unfoldable pub on_worker_result : ℕ → String → Result X A → Waiter X A → Waiter X A
    on_worker_result ctx method outcome w =
        if watches_results w.phase && is_complete ctx method outcome
        then complete_with ctx outcome w
        else w

    unfoldable pub step : Event X A → Waiter X A → Waiter X A
    unfolding on_worker_result on_worker_teardown go_on end_block
    step (completes ctx method outcome) w = on_worker_result ctx method outcome w
    step (tears_down ctx) w = on_worker_teardown ctx w
    step block_ends w = end_block w
    step goes_on w = go_on w

    unfoldable pub run : List (Event X A) → Waiter X A → Waiter X A
    unfolding step
    run [] w = w
    run (e ∷ events) w = run events (step e w)
