-- ===== src/Runners/Examples.antt =====
-- The theorems about nameko/runners.py at concrete services.
use nameko.Prelude.{ℕ, none, [], ◌∷◌, refl, ℕ_eq}
use nameko.Prelude.Set.{contains, discard}
use nameko.Exceptions.{nil}
use nameko.Exceptions.Registry.{Exc}
use nameko.Action.{raised}
use nameko.Concurrency.{
  Imap, fail_fast_imap, handle_result, rounds, resume, outcome, finishes, resumes, Reach, here,
  next, thrown,
}
use nameko.Concurrency.Reading.{outcomes}
use nameko.Runners.{string, ServiceClass, Failures}
use nameko.Runners.Serving.{Waited, wait-Waited}

abbrev crashed : Exc
crashed = record {
  type = record { module_name = "builtins"; name = "OSError" };
  args = nil;
  as_text = none;
}

abbrev at_end : Imap Unit
at_end = record {
  spawned_threads = 1 ∷ [];
  result_queue = [];
  yielded = [];
  killed = 1 ∷ [];
  status = thrown crashed;
}

abbrev run : Reach (fail_fast_imap (0 ∷ 1 ∷ [])) at_end
unfolding fail_fast_imap handle_result rounds resume contains discard
run = next (next here (finishes 0 (raised crashed) refl refl)) (resumes refl)

abbrev no_failures : Failures ℕ
no_failures = record { of_start = λ _. none; of_stop = λ _. none; of_kill = λ _. none }

wait-Waited_example :
    Waited no_failures (("orders", 7) ∷ ("users", 8) ∷ []) [] (outcomes run) [] (raised crashed)
unfolding outcome contains
wait-Waited_example =
    wait-Waited no_failures (("orders", 7) ∷ ("users", 8) ∷ []) [] (0 ∷ 1 ∷ []) at_end
      (raised crashed) (refl, (refl, tt)) run refl

abbrev orders : ServiceClass
orders = record { name = string "orders"; module_name = "shop"; class_name = "Orders" }
