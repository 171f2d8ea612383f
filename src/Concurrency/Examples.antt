-- ===== src/Concurrency/Examples.antt =====
-- The theorems about nameko/utils/concurrency at concrete threads.
use nameko.Prelude.{◌⊎◌, ℕ, ℕ_eq, String, ◌*◌, ◌≤◌, ◌≡◌, none, some, List, [], ◌∷◌, length, refl}
use nameko.Prelude.Set.{contains, discard, Distinct}
use nameko.Exceptions.{nil}
use nameko.Exceptions.Registry.{Exc}
use nameko.Action.{Result, returned, raised}
use nameko.Concurrency.{
  Imap, fail_fast_imap, handle_result, rounds, resume, outcome, Step, finishes, resumes, Reach,
  here, next, thrown,
}
use nameko.Concurrency.Soundness.{steps}
use nameko.Concurrency.FailFast.{imap-ends}
use nameko.Concurrency.Reading.{outcomes, imap-Reads}
use nameko.Concurrency.Lost.{imap-loses}

abbrev broken : Exc
broken = record {
  type = record { module_name = "builtins"; name = "ValueError" };
  args = nil;
  as_text = none;
}

abbrev threads : List ℕ
threads = 1 ∷ 2 ∷ 3 ∷ []

threads-Distinct : Distinct threads
unfolding contains
threads-Distinct = (refl, (refl, (refl, tt)))

-- Thread 2 returns and is read; then thread 1 raises and is read, and thread 3 is killed.
abbrev at_end : Imap String
at_end = record {
  spawned_threads = 3 ∷ [];
  result_queue = [];
  yielded = "two" ∷ [];
  killed = 3 ∷ [];
  status = thrown broken;
}

abbrev run : Reach (fail_fast_imap threads) at_end
unfolding fail_fast_imap handle_result rounds resume contains discard
run =
    next
      (next (next (next here (finishes 2 (returned "two") refl refl)) (resumes refl))
        (finishes 1 (raised broken) refl refl))
      (resumes refl)

imap-ends_example :
    (steps run ≤ 2 * length threads)
    × (((p : Result Exc (List String)) × (outcome at_end ≡ some p))
        ⊎ ((t : Imap String) × Step at_end t))
imap-ends_example = imap-ends threads at_end (returned "") threads-Distinct run

imap-Reads_example :
    (outcomes run ≡ returned "two" ∷ raised broken ∷ []) × (at_end.killed ≡ at_end.spawned_threads)
unfolding outcome
imap-Reads_example = imap-Reads threads at_end (raised broken) threads-Distinct run refl

imap-loses_example :
    (s : Imap String) × Reach (fail_fast_imap (1 ∷ 2 ∷ [])) s
    × (outcome s ≡ some (returned ("one" ∷ [])))
    × (s.result_queue ≡ raised broken ∷ [])
unfolding contains
imap-loses_example = imap-loses 1 "one" ((2, raised broken) ∷ []) (refl, (refl, tt))
