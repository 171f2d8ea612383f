-- ===== src/Containers/Worker.antt =====
-- `ServiceContainer._run_worker` of nameko/containers.py: one worker, from the injection of its
-- dependencies to their teardown.
pub mod Script
use nameko.Prelude.{String, Option, none, some, List, [], ◌∷◌, ◌++◌}
use nameko.Exceptions.Registry.{Exc}
use nameko.Action.{Result, returned, raised, Act, pure, ◌>>=◌, ◌>>◌, attempt}

-- How a thread is stopped: by GreenletExit, which is no `Exception`, or by an exception.
pub data Stop : Type 0 where
  exit : Stop
  error : Exc → Stop

-- The calls that a worker makes.
pub data Event (R : Type 0) : Type 0 where
  read_stack called handled : Event R
  injected set_up torn_down : String → Event R
  told : String → Option R → Option Exc → Event R

-- A dependency provider: its name on the service, and what each of its methods raises, if anything.
pub record Provider (R : Type 0) : Type 0 where
  pub attr_name : String
  pub get_dependency : Option Stop
  pub worker_setup : Option Stop
  pub worker_result : Option R → Option Exc → Option Stop
  pub worker_teardown : Option Stop

-- What a worker runs: the container's dependencies in the order of the set, what reading the call
-- id stack for the log raises, the outcome of the service method, and the entrypoint's handler.
pub record Work (R : Type 0) : Type 0 where
  pub dependencies : List (Provider R)
  pub read_failure : Option Stop
  pub method : Result Stop R
  pub handle_result : Option (Option R → Option Exc → Result Stop (Option R × Option Exc))

module _ {R : Type 0} where
  -- `_inject_dependencies`
  unfoldable pub inject_dependencies : List (Provider R) → Act Stop (Event R) Unit
  inject_dependencies [] = pure tt
  inject_dependencies (p ∷ rest) = do
    attempt (injected p.attr_name) p.get_dependency
    inject_dependencies rest

  -- `_worker_setup`
  unfoldable pub worker_setup : List (Provider R) → Act Stop (Event R) Unit
  worker_setup [] = pure tt
  worker_setup (p ∷ rest) = do attempt (set_up p.attr_name) p.worker_setup; worker_setup rest

  -- `_worker_result`
  unfoldable pub worker_result : Option R → Option Exc → List (Provider R) → Act Stop (Event R) Unit
  worker_result result exc [] = pure tt
  worker_result result exc (p ∷ rest) = do
    attempt (told p.attr_name result exc) (p.worker_result result exc)
    worker_result result exc rest

  -- `_worker_teardown`
  unfoldable pub worker_teardown : List (Provider R) → Act Stop (Event R) Unit
  worker_teardown [] = pure tt
  worker_teardown (p ∷ rest) = do
    attempt (torn_down p.attr_name) p.worker_teardown
    worker_teardown rest

  -- `try: result = method(...)` / `except Exception: exc_info = sys.exc_info()`
  unfoldable pub run_method : Result Stop R → Act Stop (Event R) (Option R × Option Exc)
  run_method (returned r) = do attempt called none; pure (some r, none)
  run_method (raised (error e)) = do attempt called none; pure (none, some e)
  run_method (raised exit) = do attempt called (some exit); pure (none, none)

  abbrev record_handled :
      Result Stop (Option R × Option Exc) → Act Stop (Event R) (Option R × Option Exc)
  record_handled (returned final) = do attempt handled none; pure final
  record_handled (raised stop) = do attempt handled (some stop); pure (none, none)

  -- `if handle_result is not None: result, exc_info = handle_result(...)`
  unfoldable pub hand_over :
      Option (Option R → Option Exc → Result Stop (Option R × Option Exc))
      → Option R × Option Exc
      → Act Stop (Event R) (Option R × Option Exc)
  hand_over none outcome = pure outcome
  hand_over (some handler) outcome = record_handled (handler outcome.0 outcome.1)

  unfoldable pub run_worker : Work R → Act Stop (Event R) Unit
  run_worker work = do
    attempt read_stack work.read_failure
    inject_dependencies work.dependencies
    worker_setup work.dependencies
    outcome ← run_method work.method
    final ← hand_over work.handle_result outcome
    worker_result final.0 final.1 work.dependencies
    worker_teardown work.dependencies
