-- ===== src/Containers/Lifecycle.antt =====
-- The life of a `ServiceContainer` (nameko/containers.py): `start`, `stop`, `kill`, the spawning of
-- threads and their exits. Green threads run one at a time and hand over only where they wait, so
-- each method is cut at its waits; `Step` lets the pieces of any number of calls interleave.
pub mod Death
pub mod Invariant
pub mod Safety
use nameko.Prelude.{
  ℕ, ℕ_eq, Bool, true, false, Option, none, some, List, [], ◌∷◌, ◌++◌, ◌≡◌, ◌&&◌, ltb, length,
  if◌then◌else◌,
}
use nameko.Prelude.Set.{contains, add, discard}
use nameko.Exceptions.Registry.{Exc}
use nameko.Containers.Worker.{Stop, exit, error}

-- The attributes, with the threads by number. `died` is None until the event is sent; it holds the
-- exception sent, if any. `blocked` holds the calls of `spawn_worker`, by the threads that they are to
-- start, that wait for a place among the `max_workers` of the pool. The last three fields say what
-- the extensions were told so far.
pub record Container : Type 0 where
  pub started : Bool
  pub being_killed : Bool
  pub died : Option (Option Exc)
  pub max_workers : ℕ
  pub workers : List ℕ
  pub blocked : List ℕ
  pub managed : List ℕ
  pub entrypoints_stopped : Bool
  pub dependencies_stopped : Bool
  pub dependencies_killed : Bool

-- Where a call of `stop` or `kill` waits.
pub data Pc : Type 0 where
  stopping_entrypoints stopping_workers stopping_dependencies stopping_subextensions : Pc
  killing_entrypoints killing_extensions : Option Exc → Pc
  awaiting_death : Pc

abbrev pub is_ready : Option (Option Exc) → Bool
is_ready none = false
is_ready (some _) = true

-- `__init__`
abbrev pub new_container : ℕ → Container
new_container max_workers = record {
  started = false;
  being_killed = false;
  died = none;
  max_workers = max_workers;
  workers = [];
  blocked = [];
  managed = [];
  entrypoints_stopped = false;
  dependencies_stopped = false;
  dependencies_killed = false;
}

-- `start`
unfoldable pub start : Container → Container
start c = record c { started = true }

-- `if not self._died.ready(): self._died.send(...)`
abbrev send_if_alive : Option Exc → Container → Container
send_if_alive exc c = record c { died = if is_ready c.died then c.died else some exc }

-- `stop`, up to its first wait; `none` if it returns at once.
unfoldable pub enter_stop : Container → Container × Option Pc
enter_stop c =
    if is_ready c.died
    then (c, none)
    else if c.being_killed
    then (c, some awaiting_death)
    else (c, some stopping_entrypoints)

-- `kill`, up to its first wait
unfoldable pub enter_kill : Option Exc → Container → Container × Option Pc
enter_kill exc c =
    if c.being_killed
    then (c, some awaiting_death)
    else let marked = record c { being_killed = true } in
      if is_ready c.died then (marked, none) else (marked, some (killing_entrypoints exc))

-- `_kill_worker_threads` and `_kill_managed_threads`: a killed thread is gone from its dict.
abbrev kill_worker_threads : Container → Container
kill_worker_threads c = record c { workers = [] }

abbrev kill_managed_threads : Container → Container
kill_managed_threads c = record c { managed = [] }

abbrev is_empty : List ℕ → Bool
is_empty [] = true
is_empty (_ ∷ _) = false

-- A call goes on when its wait is over; `none` while it is not. Entrypoints are held to the contract
-- that `stop` of the container states: `stop` returns on them when they have stopped, so none of their
-- calls of `spawn_worker` still waits then.
unfoldable pub resume : Container → Pc → Option (Container × Option Pc)
resume c stopping_entrypoints =
    if is_empty c.blocked
    then some (record c { entrypoints_stopped = true }, some stopping_workers)
    else none
resume c stopping_workers =
    if is_empty c.workers
    then some (record c { dependencies_stopped = true }, some stopping_dependencies)
    else none
resume c stopping_dependencies = some (c, some stopping_subextensions)
resume c stopping_subextensions =
    some (send_if_alive none (record (kill_managed_threads c) { started = false }), none)
resume c (killing_entrypoints exc) =
    some
      (record (kill_worker_threads c) { dependencies_killed = true }, some (killing_extensions exc))
resume c (killing_extensions exc) =
    some (send_if_alive exc (record (kill_managed_threads c) { started = false }), none)
resume c awaiting_death = if is_ready c.died then some (c, none) else none

-- `spawn_worker`, up to the place in the pool, which it waits for if `max_workers` run; `none` is
-- ContainerBeingKilled.
unfoldable pub spawn_worker : ℕ → Container → Option Container
spawn_worker thread c =
    if c.being_killed
    then none
    else if ltb (length c.workers) c.max_workers
    then some (record c { workers = add thread c.workers })
    else some (record c { blocked = add thread c.blocked })

-- The rest of a call of `spawn_worker` that waited, once there is a place; `none` while there is none.
unfoldable pub admit : ℕ → Container → Option Container
admit thread c =
    if contains thread c.blocked && ltb (length c.workers) c.max_workers
    then some (record c { workers = add thread c.workers; blocked = discard thread c.blocked })
    else none

-- `spawn_managed_thread`
unfoldable pub spawn_managed_thread : ℕ → Container → Container
spawn_managed_thread thread c = record c { managed = add thread c.managed }

-- `_handle_thread_exited`: an exception kills the container, GreenletExit does not.
unfoldable pub handle_thread_exited : Option Stop → Container → Container × Option Pc
unfolding enter_kill
handle_thread_exited none c = (c, none)
handle_thread_exited (some exit) c = (c, none)
handle_thread_exited (some (error exc)) c = enter_kill (some exc) c

-- `_handle_worker_thread_exited` and `_handle_managed_thread_exited`
unfoldable pub handle_worker_thread_exited : ℕ → Option Stop → Container → Container × Option Pc
unfolding handle_thread_exited
handle_worker_thread_exited thread outcome c =
    handle_thread_exited outcome (record c { workers = discard thread c.workers })

unfoldable pub handle_managed_thread_exited : ℕ → Option Stop → Container → Container × Option Pc
unfolding handle_thread_exited
handle_managed_thread_exited thread outcome c =
    handle_thread_exited outcome (record c { managed = discard thread c.managed })

-- A container with the calls of `stop` and `kill` that are on their way.
pub record Scene : Type 0 where
  pub container : Container
  pub callers : List Pc

abbrev pub join_caller : List Pc → Option Pc → List Pc
join_caller callers none = callers
join_caller callers (some pc) = pc ∷ callers

-- After a piece of a method: the new container, and the call if it still waits.
abbrev pub after : Container × Option Pc → List Pc → Scene
after (c, pc) callers = record { container = c; callers = join_caller callers pc }

-- One piece of one method. Entrypoints are held to their contract: once `stop` has returned on
-- them they spawn no worker.
pub data Step (s : Scene) : Scene → Type 0 where
  starts : Step s (record s { container = start s.container })
  stops : Step s (after (enter_stop s.container) s.callers)
  kills : (exc : Option Exc) → Step s (after (enter_kill exc s.container) s.callers)
  resumes :
      (before rest : List Pc) (pc : Pc) (t : Container × Option Pc)
      → s.callers ≡ before ++ pc ∷ rest
      → resume s.container pc ≡ some t
      → Step s (after t (before ++ rest))
  spawns :
      (thread : ℕ) (c : Container)
      → s.container.entrypoints_stopped ≡ false
      → spawn_worker thread s.container ≡ some c
      → Step s (record s { container = c })
  admits :
      (thread : ℕ) (c : Container)
      → admit thread s.container ≡ some c
      → Step s (record s { container = c })
  spawns_managed :
      (thread : ℕ) → Step s (record s { container = spawn_managed_thread thread s.container })
  worker_exits :
      (thread : ℕ) (outcome : Option Stop)
      → Step s (after (handle_worker_thread_exited thread outcome s.container) s.callers)
  managed_exits :
      (thread : ℕ) (outcome : Option Stop)
      → Step s (after (handle_managed_thread_exited thread outcome s.container) s.callers)

pub data Reach (s : Scene) : Scene → Type 0 where
  here : Reach s s
  next : {t u : Scene} → Reach s t → Step t u → Reach s u

abbrev pub initial : ℕ → Scene
initial max_workers = record { container = new_container max_workers; callers = [] }
