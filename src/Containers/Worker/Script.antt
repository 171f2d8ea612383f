-- ===== src/Containers/Worker/Script.antt =====
-- The run of a worker (nameko/containers.py) against its script: the list of calls to make, each
-- with what it raises.
use mathlib.Core.List.{append-nil, append_assoc}
use nameko.Prelude.{◌≡◌, refl, sym, ap, ◌∙◌, Option, none, some, List, [], ◌∷◌, ◌++◌, map}
use nameko.Exceptions.Registry.{Exc}
use nameko.Action.{Result, returned, raised, Act, pure, and_then, ◌>>=◌, ◌>>◌, attempt}
use nameko.Containers.Worker.{
  Stop, exit, error, Event, read_stack, called, handled, injected, set_up, torn_down, told,
  Provider, Work, inject_dependencies, worker_setup, worker_result, worker_teardown, run_method,
  record_handled, hand_over, run_worker,
}

abbrev Script : Type 0 → Type 0
Script R = List (Event R × Option Stop)

module _ {R : Type 0} where
  -- The calls of a script up to the first that raises, that one included, and how they end.
  unfoldable pub calls_made : Script R → List (Event R)
  calls_made [] = []
  calls_made ((event, none) ∷ rest) = event ∷ calls_made rest
  calls_made ((event, some stop) ∷ rest) = event ∷ []

  unfoldable pub ending : Script R → Result Stop Unit
  ending [] = returned tt
  ending ((event, none) ∷ rest) = ending rest
  ending ((event, some stop) ∷ rest) = raised stop

  -- `m` makes the calls of the script `s`, and then those of `k` if none raised.
  abbrev Follows : Script R → Act Stop (Event R) Unit → Type 0
  Follows s m = (log : List (Event R)) → m log ≡ (ending s, log ++ calls_made s)

  Follows-nil : Follows [] (pure tt)
  unfolding calls_made ending
  Follows-nil log = ap (λ l. (returned tt, l)) (sym (append-nil log))

  Follows-attempt :
      (event : Event R) (o : Option Stop) (rest : Script R) (m : Act Stop (Event R) Unit)
      → Follows rest m
      → Follows ((event, o) ∷ rest) (attempt event o >> m)
  unfolding calls_made ending
  Follows-attempt event none rest m h log =
      h (log ++ event ∷ [])
      ∙ ap (λ l. (ending rest, l)) (append_assoc log (event ∷ []) (calls_made rest))
  Follows-attempt event (some stop) rest m h log = refl

  follow_ending :
      (s t : Script R) (n : Act Stop (Event R) Unit) (log : List (Event R))
      → Follows t n
      → and_then (ending s) (λ _. n) (log ++ calls_made s)
        ≡ (ending (s ++ t), log ++ calls_made (s ++ t))
  unfolding calls_made ending
  follow_ending [] t n log h = rw append-nil (h log)
  follow_ending ((event, none) ∷ rest) t n log h =
      let once = append_assoc log (event ∷ []) (calls_made rest) in
      let later = append_assoc log (event ∷ []) (calls_made (rest ++ t)) in
      rw (← once, ← later) (follow_ending rest t n (log ++ event ∷ []) h)
  follow_ending ((event, some stop) ∷ rest) t n log h = refl

  Follows-append :
      (s t : Script R) (m n : Act Stop (Event R) Unit)
      → Follows s m
      → Follows t n
      → Follows (s ++ t) (m >> n)
  Follows-append s t m n hs ht log = rw (hs log) (follow_ending s t n log ht)

-- The documented order of a worker's calls.
module _ {R : Type 0} where
  abbrev injections : List (Provider R) → Script R
  injections = map (λ p. (injected p.attr_name, p.get_dependency))

  abbrev setups : List (Provider R) → Script R
  setups = map (λ p. (set_up p.attr_name, p.worker_setup))

  abbrev tellings : Option R × Option Exc → List (Provider R) → Script R
  tellings final = map (λ p. (told p.attr_name final.0 final.1, p.worker_result final.0 final.1))

  abbrev teardowns : List (Provider R) → Script R
  teardowns = map (λ p. (torn_down p.attr_name, p.worker_teardown))

  abbrev closing : List (Provider R) → Option R × Option Exc → Script R
  closing deps final = tellings final deps ++ teardowns deps

  abbrev handing :
      List (Provider R)
      → Option (Option R → Option Exc → Result Stop (Option R × Option Exc))
      → Option R × Option Exc
      → Script R
  handing deps none outcome = closing deps outcome
  handing deps (some handler) outcome = elim (handler outcome.0 outcome.1) [
    | returned final ↦ (handled, none) ∷ closing deps final
    | raised stop ↦ (handled, some stop) ∷ []
  ]

  abbrev calling : Work R → Result Stop R → Script R
  calling work (returned r) =
      (called, none) ∷ handing work.dependencies work.handle_result (some r, none)
  calling work (raised (error e)) =
      (called, none) ∷ handing work.dependencies work.handle_result (none, some e)
  calling work (raised exit) = (called, some exit) ∷ []

  abbrev pub script : Work R → Script R
  script work =
      (read_stack, work.read_failure)
      ∷ (injections work.dependencies ++ (setups work.dependencies ++ calling work work.method))

  inject-Follows : (l : List (Provider R)) → Follows (injections l) (inject_dependencies l)
  unfolding inject_dependencies
  inject-Follows [] = Follows-nil
  inject-Follows (p ∷ rest) = Follows-attempt _ p.get_dependency _ _ (inject-Follows rest)

  setup-Follows : (l : List (Provider R)) → Follows (setups l) (worker_setup l)
  unfolding worker_setup
  setup-Follows [] = Follows-nil
  setup-Follows (p ∷ rest) = Follows-attempt _ p.worker_setup _ _ (setup-Follows rest)

  teardown-Follows : (l : List (Provider R)) → Follows (teardowns l) (worker_teardown l)
  unfolding worker_teardown
  teardown-Follows [] = Follows-nil
  teardown-Follows (p ∷ rest) = Follows-attempt _ p.worker_teardown _ _ (teardown-Follows rest)

  result-Follows :
      (final : Option R × Option Exc) (l : List (Provider R))
      → Follows (tellings final l) (worker_result final.0 final.1 l)
  unfolding worker_result
  result-Follows final [] = Follows-nil
  result-Follows final (p ∷ rest) =
      Follows-attempt _ (p.worker_result final.0 final.1) _ _ (result-Follows final rest)

  closing-Follows :
      (deps : List (Provider R)) (final : Option R × Option Exc)
      → Follows (closing deps final) (worker_result final.0 final.1 deps >> worker_teardown deps)
  closing-Follows deps final =
      Follows-append _ _ _ _ (result-Follows final deps) (teardown-Follows deps)

  abbrev close : List (Provider R) → Option R × Option Exc → Act Stop (Event R) Unit
  close deps final = do worker_result final.0 final.1 deps; worker_teardown deps

  handed-Follows :
      (deps : List (Provider R)) (r : Result Stop (Option R × Option Exc))
      → Follows
          (elim r [
            | returned final ↦ (handled, none) ∷ closing deps final
            | raised stop ↦ (handled, some stop) ∷ []
          ])
          (record_handled r >>= close deps)
  handed-Follows deps (returned final) =
      Follows-attempt handled none _ _ (closing-Follows deps final)
  handed-Follows deps (raised stop) = Follows-attempt handled (some stop) [] (pure tt) Follows-nil

  handing-Follows :
      (deps : List (Provider R))
      (h : Option (Option R → Option Exc → Result Stop (Option R × Option Exc)))
      (outcome : Option R × Option Exc)
      → Follows (handing deps h outcome) (hand_over h outcome >>= close deps)
  unfolding hand_over
  handing-Follows deps none outcome = closing-Follows deps outcome
  handing-Follows deps (some handler) outcome = handed-Follows deps (handler outcome.0 outcome.1)

  calling-Follows :
      (work : Work R) (r : Result Stop R)
      → Follows (calling work r) (do
        outcome ← run_method r
        final ← hand_over work.handle_result outcome
        close work.dependencies final)
  unfolding run_method
  calling-Follows work (returned r) =
      Follows-attempt called none _ _ (handing-Follows work.dependencies work.handle_result _)
  calling-Follows work (raised (error e)) =
      Follows-attempt called none _ _ (handing-Follows work.dependencies work.handle_result _)
  calling-Follows work (raised exit) = Follows-attempt called (some exit) [] (pure tt) Follows-nil

  -- A worker makes the calls of its script in order, up to the first that raises, and ends with
  -- what that call raised, or returns. So an exception of the service method does not end it.
  pub run_worker-script :
      (work : Work R) (log : List (Event R))
      → run_worker work log ≡ (ending (script work), log ++ calls_made (script work))
  unfolding run_worker
  run_worker-script work = Follows-attempt read_stack work.read_failure _ _ (
      Follows-append _ _ _ _ (inject-Follows work.dependencies) (
        Follows-append _ _ _ _ (setup-Follows work.dependencies)
          (calling-Follows work work.method)))
