-- ===== src/Cli/Running.antt =====
-- `run` of nameko/cli/run.py: the loop that waits for the service runner, over what its waits come to.
pub mod Leaving
use nameko.Prelude.{ℕ, String, string_eq, Bool, true, false, Option, none, some, List, [], ◌∷◌}
use nameko.Prelude.Dict.{Dict}
use nameko.Exceptions.Registry.{Exc}
use nameko.Action.{Result, returned, raised, Act, pure, throw, ◌>>=◌, ◌>>◌, emit, attempt}
use nameko.Runners.{ServiceClass, add_services}

-- What is done to the service runner, and the backdoor that is opened, by its port. A call of `stop`
-- may be cut by another KeyboardInterrupt.
pub data Call : Type 0 where
  backdoor : ℕ → Call
  start : Call
  stop : Call
  cut_stop : Call
  kill : Call

-- What `runnlet.wait()` comes to: an OSError with EINTR, another exception, a KeyboardInterrupt,
-- with whether another one cuts the `stop` that follows, or the end of the runner's `wait`.
pub data Wait : Type 0 where
  interrupted : Wait
  failed : Exc → Wait
  keyboard_interrupt : Bool → Wait
  completed : Wait

-- Whether `run` returned, or still waits when no more waits are given.
pub data Status : Type 0 where
  waiting : Status
  left : Status

-- What the calls raise, if anything.
pub record Failures : Type 0 where
  pub of_backdoor : Option Exc
  pub of_start : Option Exc
  pub of_stop : Option Exc
  pub of_kill : Option Exc

module _ (failures : Failures) where
  open failures use {of_backdoor, of_start, of_stop, of_kill}

  -- `except KeyboardInterrupt` around `runnlet.wait()`
  abbrev stop_or_kill : Bool → Act Exc Call Unit
  stop_or_kill false = attempt stop of_stop
  stop_or_kill true = do emit cut_stop; attempt kill of_kill

  -- `while True`
  unfoldable pub loop : List Wait → Act Exc Call Status
  loop [] = pure waiting
  loop (interrupted ∷ waits) = loop waits
  loop (failed exc ∷ waits) = throw exc
  loop (keyboard_interrupt again ∷ waits) = do stop_or_kill again; loop waits
  loop (completed ∷ waits) = pure left

  abbrev setup_backdoor : Option ℕ → Act Exc Call Unit
  setup_backdoor none = pure tt
  setup_backdoor (some port) = attempt (backdoor port) of_backdoor

  abbrev added : {C : Type 0} → Result Exc (Dict String C) → Act Exc Call Unit
  added (returned service_map) = pure tt
  added (raised exc) = throw exc

  unfoldable pub run :
      {C : Type 0}
      → (ServiceClass → Result Exc C)
      → List ServiceClass
      → Option ℕ
      → List Wait
      → Act Exc Call Status
  unfolding add_services loop
  run container_cls services backdoor_port waits = do
    added (add_services container_cls services [])
    setup_backdoor backdoor_port
    attempt start of_start
    loop waits
