-- ===== src/Runners/Serving.antt =====
-- How a runner waits for its containers, and what a block that is served leaves (nameko/runners.py).
use nameko.Prelude.{
  ℕ, ℕ_eq, String, string_eq, ◌≡◌, inl, inr, Bool, true, false, Option, none, some, List, [], ◌∷◌,
  ◌++◌, map, refl, Option-cases, arith, if◌then◌else◌,
}
use nameko.Prelude.Dict.{Dict}
use nameko.Prelude.Set.{Distinct}
use mathlib.Core.List.{append-nil}
use nameko.Exceptions.Registry.{Exc}
use nameko.Action.{Result, returned, raised}
use nameko.Concurrency.{Imap, fail_fast_imap, outcome, Reach}
use nameko.Concurrency.Reading.{outcomes, imap-Reads}
use nameko.Runners.{
  ServiceClass, containers, add_services, Told, started, stopped, killed, Failures, start, stop,
  kill, wait, run_services,
}

-- Stopping all of some containers at once; nothing is told if there are none.
abbrev pub told_to_stop : {C : Type 0} → List C → List (Told C)
told_to_stop [] = []
told_to_stop (c ∷ rest) = stopped (c ∷ rest) ∷ []

abbrev pub trouble_of : {C : Type 0} → Failures C → List C → Option Exc
trouble_of failures [] = none
trouble_of failures (c ∷ rest) = failures.of_stop (c ∷ rest)

-- The exception that goes on: one of stopping takes the place of the first.
abbrev pub raised_after : Exc → Option Exc → Exc
raised_after exc none = exc
raised_after exc (some other) = other

wait_stops :
    {C : Type 0} (R : Type 0) (failures : Failures C) (service_map : Dict String C)
    (log : List (Told C)) (exc : Exc)
    → wait failures {R = R} service_map (raised exc) log ≡ (
      raised (raised_after exc (trouble_of failures (containers service_map))),
      log ++ told_to_stop (containers service_map),
    )
unfolding wait stop
wait_stops {C} R failures service_map log exc = by_list (containers service_map) refl
  where
    by_list :
        (cs : List C)
        → containers service_map ≡ cs
        → wait failures {R = R} service_map (raised exc) log
          ≡ (raised (raised_after exc (trouble_of failures cs)), log ++ told_to_stop cs)
    by_list [] e = ground (arith, e, append-nil log)
    by_list (c ∷ rest) e = elim (Option-cases (failures.of_stop (c ∷ rest))) [
      | inl fine ↦ ground (arith, e, fine)
      | inr (other, trouble) ↦ ground (arith, e, trouble)
    ]

module _ {C R : Type 0} (failures : Failures C) (service_map : Dict String C)
    (log : List (Told C)) where
  -- How waiting ends, with the outcomes of the containers in the order in which they came.
  pub data Waited (came unread : List (Result Exc R)) (o : Result Exc (List R)) : Type 0 where
    all_ended :
        (results : List R)
        → came ≡ map returned results ++ unread
        → wait failures service_map o log ≡ (returned tt, log)
        → Waited came unread o
    peers_stopped :
        (earlier : List R) (exc : Exc)
        → came ≡ map returned earlier ++ raised exc ∷ unread
        → wait failures service_map o log ≡ (
          raised (raised_after exc (trouble_of failures (containers service_map))),
          log ++ told_to_stop (containers service_map),
        )
        → Waited came unread o

  -- When the calls on the containers have come to an outcome: either all containers whose end was
  -- read ended without an exception, and `wait` returns and does nothing more; or the first that
  -- failed raised an exception, and `wait` tells all containers to stop, if there are any, and raises
  -- that exception, or the one that stopping raises.
  pub wait-Waited :
      (threads : List ℕ) (s : Imap R) (o : Result Exc (List R))
      → Distinct threads
      → (r : Reach (fail_fast_imap threads) s) → outcome s ≡ some o
      → Waited (outcomes r) s.result_queue o
  unfolding wait
  wait-Waited threads s (returned results) d r e =
      all_ended results (imap-Reads threads s (returned results) d r e).0 refl
  wait-Waited threads s (raised exc) d r e =
      peers_stopped s.yielded exc (imap-Reads threads s (raised exc) d r e).0
        (wait_stops R failures service_map log exc)

-- What is left of containers when a block that they were started for ends so.
abbrev pub left_by :
    {C : Type 0} → List C → Bool → Result Exc Unit → Result Exc Unit × List (Told C)
left_by cs kill_on_exit (returned tt) =
    (returned tt, started cs ∷ (if kill_on_exit then killed cs else stopped cs) ∷ [])
left_by cs kill_on_exit (raised exc) = (raised exc, started cs ∷ [])

-- Let the services be added, one at least, and let starting, stopping and killing raise nothing. If
-- the block of `run_services` ends, then the containers were started, and after it they were
-- stopped, or killed if `kill_on_exit` is set. If it raises, then they were started, that exception
-- goes on, and they are neither stopped nor killed.
pub run_services-leaves :
    {C : Type 0} (failures : Failures C) (container_cls : ServiceClass → Result Exc C)
    (services : List ServiceClass) (kill_on_exit : Bool) (block : Result Exc Unit)
    (service_map : Dict String C) (c : C) (rest : List C)
    → add_services container_cls services [] ≡ returned service_map
    → containers service_map ≡ c ∷ rest
    → failures.of_start (c ∷ rest) ≡ none
    → failures.of_stop (c ∷ rest) ≡ none
    → failures.of_kill (c ∷ rest) ≡ none
    → run_services failures container_cls services kill_on_exit block []
      ≡ left_by (c ∷ rest) kill_on_exit block
unfolding run_services start stop kill
run_services-leaves failures container_cls services true (returned tt) service_map c rest a n p q
      k =
    ground (arith, a, n, p, k)
run_services-leaves failures container_cls services false (returned tt) service_map c rest a n p q
      k =
    ground (arith, a, n, p, q)
run_services-leaves failures container_cls services kill_on_exit (raised exc) service_map c rest a n
      p q k =
    ground (arith, a, n, p)
