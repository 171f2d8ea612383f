-- ===== src/Containers/Lifecycle/Safety.antt =====
-- The dependencies, the workers and the outcome of a container (nameko/containers.py).
use nameko.Prelude.{ℕ, ◌||◌, ◌++◌, ◌∷◌, List, ◌≡◌, true, Option, some, [], arith, ℕ_eq}
use nameko.Prelude.Set.{contains, contains-add, contains-discard}
use nameko.Exceptions.Registry.{Exc}
use nameko.Containers.Worker.{Stop}
use nameko.Containers.Lifecycle.{
  Container, Pc, stopping_entrypoints, start, enter_stop, enter_kill, resume, spawn_worker, admit,
  spawn_managed_thread, handle_worker_thread_exited, handle_managed_thread_exited, Scene, after,
  killing_entrypoints, Step, Reach, initial,
}
use nameko.Containers.Lifecycle.Invariant.{Inv-initial, Reach-Inv, counted, is_killer}

-- However calls of `stop` and `kill`, spawning workers and exits interleave: once `stop` has begun to
-- stop the dependencies, no worker runs, and no call of `spawn_worker` waits to start one, if
-- entrypoints that have stopped make no such call.
pub dependencies_outlive_workers :
    {max_workers : ℕ} {s : Scene}
    → Reach (initial max_workers) s
    → s.container.dependencies_stopped ≡ true
    → (s.container.workers ≡ []) × (s.container.blocked ≡ [])
dependencies_outlive_workers {max_workers} r down =
    let i = Reach-Inv (Inv-initial max_workers) r in (i.idle down, i.settled (i.closed down))

-- What no step undoes: the mark of `kill`, and the outcome that `wait` returns or raises.
record IsKept (c d : Container) : Type 0 where
  marked : c.being_killed ≡ true → d.being_killed ≡ true
  died : (outcome : Option Exc) → c.died ≡ some outcome → d.died ≡ some outcome
  workers :
      (thread : ℕ)
      → c.being_killed ≡ true
      → (contains thread d.workers || contains thread d.blocked) ≡ true
      → (contains thread c.workers || contains thread c.blocked) ≡ true

resume-IsKept :
    (c : Container) (pc : Pc) (t : Container × Option Pc) → resume c pc ≡ some t → IsKept c t.0
unfolding resume contains
resume-IsKept c stopping_entrypoints t e = ground arith
resume-IsKept c pc t e = ground arith

exited-IsKept :
    (thread : ℕ) (outcome : Option Stop) (c : Container)
    → IsKept c (handle_worker_thread_exited thread outcome c).0
unfolding handle_worker_thread_exited
exited-IsKept thread outcome c = record {
  marked = ground arith;
  died = λ x e. ground arith;
  workers = λ other m h. ground (arith, contains-discard thread other c.workers);
}

admit-IsKept : (thread : ℕ) (c d : Container) → admit thread c ≡ some d → IsKept c d
unfolding admit
admit-IsKept thread c d e = record {
  marked = ground arith;
  died = λ x h. ground arith;
  workers = λ other m h. ground (
    arith,
    e,
    h,
    contains-add thread other c.workers,
    contains-discard thread other c.blocked,
    ℕ_eq.equal_iff thread other,
  );
}

Step-IsKept : {s t : Scene} → Step s t → IsKept s.container t.container
unfolding start enter_stop enter_kill spawn_worker spawn_managed_thread handle_managed_thread_exited
Step-IsKept Step.starts = ground arith
Step-IsKept Step.stops = ground arith
Step-IsKept (Step.kills exc) = ground arith
Step-IsKept (Step.resumes before rest pc t e r) = resume-IsKept _ pc t r
Step-IsKept (Step.spawns thread c e p) = ground arith
Step-IsKept (Step.admits thread c p) = admit-IsKept thread _ c p
Step-IsKept (Step.spawns_managed thread) = ground arith
Step-IsKept (Step.worker_exits thread outcome) = exited-IsKept thread outcome _
Step-IsKept (Step.managed_exits thread outcome) = ground arith

Reach-IsKept : {s t : Scene} → Reach s t → IsKept s.container t.container
Reach-IsKept Reach.here = ground arith
Reach-IsKept (Reach.next r step) =
    let before = Reach-IsKept r in
    let last = Step-IsKept step in
    record {
      marked = λ k. last.marked (before.marked k);
      died = λ x e. last.died x (before.died x e);
      workers = λ thread k h. before.workers thread k (last.workers thread (before.marked k) h);
    }

-- What `wait` returns or raises is decided once: no step from any state changes it afterwards.
pub outcome_is_final :
    {s t : Scene} (outcome : Option Exc)
    → Reach s t
    → s.container.died ≡ some outcome
    → t.container.died ≡ some outcome
outcome_is_final outcome r e = (Reach-IsKept r).died outcome e

-- Once `kill` has killed the workers and begins to kill the dependencies, a worker that runs at any
-- later moment is one whose call of `spawn_worker` waited for a place in the pool when the workers
-- were killed.
pub killed-workers_waited :
    {max_workers : ℕ} {s u : Scene} (before rest : List Pc) (exc : Option Exc)
    (t : Container × Option Pc) (thread : ℕ)
    → Reach (initial max_workers) s
    → s.callers ≡ before ++ killing_entrypoints exc ∷ rest
    → resume s.container (killing_entrypoints exc) ≡ some t
    → Reach (after t (before ++ rest)) u
    → contains thread u.container.workers ≡ true
    → contains thread s.container.blocked ≡ true
unfolding resume contains
killed-workers_waited {max_workers} {s} {u} before rest exc t thread r e k later h =
    let i = Reach-Inv (Inv-initial max_workers) r in
    let marked : s.container.being_killed ≡ true =
      ground (arith, i.marked, e, counted is_killer before (killing_entrypoints exc) rest) in
    let still : t.0.being_killed ≡ true = ground (arith, k, marked) in
    let had = (Reach-IsKept later).workers thread still (ground (arith, h)) in
    ground (arith, k, had)
