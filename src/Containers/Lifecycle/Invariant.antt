-- ===== src/Containers/Lifecycle/Invariant.antt =====
-- What holds of a container (nameko/containers.py) at every moment, however the calls of `stop` and
-- `kill`, the spawning of workers and the exits of threads interleave.
use nameko.Prelude.{
  ℕ, ◌+◌, ◌≤◌, ◌<◌, ◌≡◌, Bool, true, false, Option, some, List, [], ◌∷◌, ◌++◌, arith, count_if,
  count_if-append, ℕ_eq, if◌then◌else◌,
}
use nameko.Prelude.Set.{contains, discard}
use nameko.Exceptions.Registry.{Exc}
use nameko.Containers.Worker.{Stop}
use nameko.Containers.Lifecycle.{
  Container, Pc, stopping_entrypoints, stopping_workers, stopping_dependencies,
  stopping_subextensions, killing_entrypoints, killing_extensions, awaiting_death, is_ready, start,
  enter_stop, enter_kill, resume, spawn_worker, admit, spawn_managed_thread,
  handle_worker_thread_exited, handle_managed_thread_exited, Scene, after, Step, Reach, initial,
}

abbrev pub is_killer : Pc → Bool
is_killer (killing_entrypoints _) = true
is_killer (killing_extensions _) = true
is_killer _ = false

abbrev pub is_awaiting : Pc → Bool
is_awaiting awaiting_death = true
is_awaiting _ = false

-- A call of `stop` whose entrypoints have stopped.
abbrev pub is_past_entrypoints : Pc → Bool
is_past_entrypoints stopping_workers = true
is_past_entrypoints stopping_dependencies = true
is_past_entrypoints stopping_subextensions = true
is_past_entrypoints _ = false

abbrev pub killers : List Pc → ℕ
killers = count_if is_killer

pub record Inv (s : Scene) : Type 0 where
  pub one_killer : killers s.callers ≤ 1
  pub marked : 0 < killers s.callers → s.container.being_killed ≡ true
  pub promised :
      s.container.being_killed ≡ true → is_ready s.container.died ≡ false → 0 < killers s.callers
  pub awaited : 0 < count_if is_awaiting s.callers → s.container.being_killed ≡ true
  pub past : 0 < count_if is_past_entrypoints s.callers → s.container.entrypoints_stopped ≡ true
  pub idle : s.container.dependencies_stopped ≡ true → s.container.workers ≡ []
  pub closed : s.container.dependencies_stopped ≡ true → s.container.entrypoints_stopped ≡ true
  pub settled : s.container.entrypoints_stopped ≡ true → s.container.blocked ≡ []

pub Inv-initial : (max_workers : ℕ) → Inv (initial max_workers)
Inv-initial max_workers = ground arith

start-Inv : {s : Scene} → Inv s → Inv (record s { container = start s.container })
unfolding start
start-Inv h = ground arith

stop-Inv : {s : Scene} → Inv s → Inv (after (enter_stop s.container) s.callers)
unfolding enter_stop
stop-Inv h = ground arith

kill-Inv :
    {s : Scene} (exc : Option Exc) → Inv s → Inv (after (enter_kill exc s.container) s.callers)
unfolding enter_kill
kill-Inv exc h = ground arith

-- The callers with `pc` among them count it once.
pub counted :
    (p : Pc → Bool) (before : List Pc) (pc : Pc) (rest : List Pc)
    → (count_if p (before ++ pc ∷ rest)
        ≡ count_if p before + ((if p pc then 1 else 0) + count_if p rest))
      × (count_if p (before ++ rest) ≡ count_if p before + count_if p rest)
counted p before pc rest = (count_if-append p before (pc ∷ rest), count_if-append p before rest)

-- A call that waited at `pc` goes on.
resume-Inv :
    {s : Scene} (before rest : List Pc) (pc : Pc) (t : Container × Option Pc)
    → s.callers ≡ before ++ pc ∷ rest
    → resume s.container pc ≡ some t
    → Inv s
    → Inv (after t (before ++ rest))
unfolding resume
resume-Inv before rest stopping_entrypoints t e r h = ground (
  arith,
  counted is_killer before stopping_entrypoints rest,
  counted is_awaiting before stopping_entrypoints rest,
  counted is_past_entrypoints before stopping_entrypoints rest,
)
resume-Inv before rest pc t e r h = ground (
  arith,
  counted is_killer before pc rest,
  counted is_awaiting before pc rest,
  counted is_past_entrypoints before pc rest,
)

spawn-Inv :
    {s : Scene} (thread : ℕ) (c : Container)
    → s.container.entrypoints_stopped ≡ false
    → spawn_worker thread s.container ≡ some c
    → Inv s
    → Inv (record s { container = c })
unfolding spawn_worker
spawn-Inv thread c e p h = ground arith

admit-Inv :
    {s : Scene} (thread : ℕ) (c : Container)
    → admit thread s.container ≡ some c
    → Inv s
    → Inv (record s { container = c })
unfolding admit contains
admit-Inv thread c p h = ground arith

spawn_managed-Inv :
    {s : Scene} (thread : ℕ)
    → Inv s
    → Inv (record s { container = spawn_managed_thread thread s.container })
unfolding spawn_managed_thread
spawn_managed-Inv thread h = ground arith

worker_exits-Inv :
    {s : Scene} (thread : ℕ) (outcome : Option Stop)
    → Inv s
    → Inv (after (handle_worker_thread_exited thread outcome s.container) s.callers)
unfolding handle_worker_thread_exited discard
worker_exits-Inv thread outcome h = ground arith

managed_exits-Inv :
    {s : Scene} (thread : ℕ) (outcome : Option Stop)
    → Inv s
    → Inv (after (handle_managed_thread_exited thread outcome s.container) s.callers)
unfolding handle_managed_thread_exited
managed_exits-Inv thread outcome h = ground arith

Step-Inv : {s t : Scene} → Step s t → Inv s → Inv t
Step-Inv Step.starts h = start-Inv h
Step-Inv Step.stops h = stop-Inv h
Step-Inv (Step.kills exc) h = kill-Inv exc h
Step-Inv (Step.resumes before rest pc t e r) h = resume-Inv before rest pc t e r h
Step-Inv (Step.spawns thread c e p) h = spawn-Inv thread c e p h
Step-Inv (Step.admits thread c p) h = admit-Inv thread c p h
Step-Inv (Step.spawns_managed thread) h = spawn_managed-Inv thread h
Step-Inv (Step.worker_exits thread outcome) h = worker_exits-Inv thread outcome h
Step-Inv (Step.managed_exits thread outcome) h = managed_exits-Inv thread outcome h

pub Reach-Inv : {s t : Scene} → Inv s → Reach s t → Inv t
Reach-Inv h Reach.here = h
Reach-Inv h (Reach.next r st) = Step-Inv st (Reach-Inv h r)
