-- ===== src/Containers/Examples.antt =====
-- The theorems about nameko/containers.py at concrete contexts, workers and containers.
use nameko.Prelude.{ℕ, String, ◌≡◌, refl, true, none, some, [], ◌∷◌, arith, ℕ_eq, string_eq}
use nameko.Prelude.Dict.{Dict, get, remove}
use nameko.Prelude.Set.{contains, add, discard}
use nameko.Prelude.Text.{join_dot}
use nameko.Exceptions.{nil}
use nameko.Exceptions.Registry.{Exc}
use nameko.Action.{returned, raised}
use nameko.Containers.Context.{
  WorkerContext, Datum, scalar, ids, null, call_id, call_id_stack, new_context,
}
use nameko.Containers.Context.Trail.{IsContext, new_context-IsContext}
use nameko.Containers.Worker.{error, Event, Provider, Work, run_worker}
use nameko.Containers.Worker.Script.{ending, calls_made, run_worker-script}
use nameko.Containers.Lifecycle.{
  Container, Pc, Scene, Step, Reach, initial, new_container, admit, enter_stop, enter_kill, resume,
  spawn_worker, handle_worker_thread_exited, stopping_workers, killing_entrypoints, is_ready,
  awaiting_death,
}
use nameko.Containers.Lifecycle.Safety.{dependencies_outlive_workers, killed-workers_waited}
use nameko.Containers.Lifecycle.Death.{awaited_death_comes}

abbrev given : Dict String (Datum String)
given =
    ("call_id_stack", ids ("a.x.0" ∷ "b.y.1" ∷ []))
    ∷ ("user_id", scalar "7")
    ∷ ("language", null)
    ∷ []

abbrev pub context : WorkerContext String
context = new_context "c" "z" (some 1) none none (some given)

pub context-IsContext : IsContext context
unfolding get
context-IsContext =
    new_context-IsContext "c" "z" (some 1) none none given ("a.x.0" ∷ "b.y.1" ∷ [])
      (refl, (refl, (refl, tt))) refl

-- One parent call is tracked, so the older one is dropped.
stack_of_context : (call_id_stack "2" context).0 ≡ some ("b.y.1" ∷ "c.z.2" ∷ [])
unfolding call_id_stack call_id new_context get remove join_dot
stack_of_context = refl

abbrev boom : Exc
boom = record {
  type = record { module_name = "builtins"; name = "ValueError" };
  args = nil;
  as_text = some "boom";
}

abbrev database : Provider ℕ
database = record {
  attr_name = "db";
  get_dependency = none;
  worker_setup = none;
  worker_result = λ r e. none;
  worker_teardown = none;
}

-- The method raises, and the handler of its result takes that.
abbrev work : Work ℕ
work = record {
  dependencies = database ∷ [];
  read_failure = none;
  method = raised (error boom);
  handle_result = some (λ r e. returned (r, e));
}

run_worker-script_example : run_worker work [] ≡ (
  returned tt,
  Event.read_stack
      ∷ Event.injected "db"
      ∷ Event.set_up "db"
      ∷ Event.called
      ∷ Event.handled
      ∷ Event.told "db" none (some boom)
      ∷ Event.torn_down "db"
      ∷ [],
)
unfolding ending calls_made
run_worker-script_example = run_worker-script work []

abbrev busy : Container
busy = record (new_container 1) { workers = 1 ∷ [] }

abbrev busy_scene : Scene
busy_scene = record { container = busy; callers = [] }

spawned : Reach (initial 1) busy_scene
unfolding spawn_worker add contains
spawned = Reach.next Reach.here (Step.spawns 1 busy refl refl)

-- `stop` is called, the entrypoints stop, the worker ends, and the dependencies are being stopped.
abbrev stopping_scene : Scene
stopping_scene = record {
  container = record (new_container 1) { entrypoints_stopped = true; dependencies_stopped = true };
  callers = Pc.stopping_dependencies ∷ [];
}

stopped : Reach (initial 1) stopping_scene
unfolding enter_stop resume handle_worker_thread_exited discard
stopped =
    Reach.next
      (Reach.next
        (Reach.next (Reach.next spawned Step.stops)
          (Step.resumes [] [] Pc.stopping_entrypoints _ refl refl))
        (Step.worker_exits 1 none))
      (Step.resumes [] [] stopping_workers _ refl refl)

dependencies_outlive_workers_example :
    (stopping_scene.container.workers ≡ []) × (stopping_scene.container.blocked ≡ [])
dependencies_outlive_workers_example = dependencies_outlive_workers stopped refl

-- A worker fails, which kills the container; `stop` is called and waits for the death.
abbrev dying : Scene
dying = record {
  container = record (new_container 1) { being_killed = true };
  callers = awaiting_death ∷ killing_entrypoints (some boom) ∷ [];
}

dies : Reach (initial 1) dying
unfolding enter_stop enter_kill handle_worker_thread_exited discard
dies = Reach.next (Reach.next spawned (Step.worker_exits 1 (some (error boom)))) Step.stops

awaited_death_comes_example : (t : Scene) × Reach dying t × (is_ready t.container.died ≡ true)
awaited_death_comes_example = awaited_death_comes dies (omega arith)

abbrev dead : Scene
dead = record {
  container = record (new_container 1) {
    being_killed = true;
    died = some (some boom);
    dependencies_killed = true;
  };
  callers = awaiting_death ∷ [];
}

death : Reach dying dead
unfolding resume
death =
    Reach.next
      (Reach.next Reach.here
        (Step.resumes (awaiting_death ∷ []) [] (killing_entrypoints (some boom)) _ refl refl))
      (Step.resumes [] (awaiting_death ∷ []) (Pc.killing_extensions (some boom)) _ refl refl)

gone : Reach dead (record dead { callers = [] })
unfolding resume
gone = Reach.next Reach.here (Step.resumes [] [] awaiting_death _ refl refl)

-- With one place in the pool, the second of two workers waits when the container is killed, and is
-- started when its dependencies are being killed.
abbrev killing : Scene
killing = record {
  container = record (new_container 1) { being_killed = true; workers = 1 ∷ []; blocked = 2 ∷ [] };
  callers = killing_entrypoints none ∷ [];
}

killing-Reach : Reach (initial 1) killing
unfolding spawn_worker enter_kill add contains
killing-Reach =
    Reach.next
      (Reach.next (Reach.next Reach.here (Step.spawns 1 _ refl refl)) (Step.spawns 2 _ refl refl))
      (Step.kills none)

abbrev killed : Container
killed = record (new_container 1) {
  being_killed = true;
  blocked = 2 ∷ [];
  dependencies_killed = true;
}

abbrev started_late : Scene
started_late = record {
  container = record killed { workers = 2 ∷ []; blocked = [] };
  callers = Pc.killing_extensions none ∷ [];
}

starts_late :
    Reach (record { container = killed; callers = Pc.killing_extensions none ∷ [] }) started_late
unfolding admit contains add discard
starts_late = Reach.next Reach.here (Step.admits 2 _ refl)

killed-workers_waited_example : contains {A = ℕ} 2 (2 ∷ []) ≡ true
unfolding resume contains
killed-workers_waited_example =
    killed-workers_waited [] [] none (killed, some (Pc.killing_extensions none)) 2 killing-Reach
      refl refl starts_late refl
