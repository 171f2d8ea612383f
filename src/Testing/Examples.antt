-- ===== src/Testing/Examples.antt =====
-- The theorems about nameko/testing at concrete events.
use nameko.Prelude.Set.{contains, discard}
use nameko.Prelude.{
  String, ℕ_eq, nat_eq, false, if◌then◌else◌, ℕ, ◌≡◌, string_eq, Bool, true, some, List, [], ◌∷◌,
  refl,
}
use nameko.Action.{Result, returned, raised}
use nameko.Testing.Restricting.{Container, restrict_entrypoints}
use nameko.Testing.Waiting.{
  left, Event, completes, tears_down, block_ends, goes_on, new_waiter, run,
}
use nameko.Testing.Waiting.Reports.{Reports, run-Reports, two_calls, run-mixes}

abbrev always : ℕ → Result Unit ℕ → Bool
always ctx outcome = true

abbrev events : List (Event Unit ℕ)
events =
    completes 1 "other" (returned 5)
    ∷ block_ends
    ∷ completes 2 "spam" (returned 7)
    ∷ goes_on
    ∷ tears_down 1
    ∷ tears_down 2
    ∷ goes_on
    ∷ []

run-Reports_example : Reports "spam" always events (run "spam" always events new_waiter)
run-Reports_example = run-Reports "spam" always events

run-mixes_example :
    let w = run "spam" always (two_calls "spam" always 1 2 (returned 7) (raised tt)) new_waiter in
    (w.phase ≡ left) × (w.result ≡ some (returned 7))
run-mixes_example = run-mixes "spam" always 1 2 (returned 7) (raised tt) refl refl

waits_for_spam : (run "spam" always events new_waiter).result ≡ some (returned 7)
unfolding run
waits_for_spam = refl

abbrev method_of : ℕ → String
method_of e = if nat_eq e 1 then "foo" else "bar"

abbrev container : Container
container = record { started = false; entrypoints = 1 ∷ 2 ∷ 3 ∷ [] }

leaves_bar :
    restrict_entrypoints method_of container ("bar" ∷ [])
    ≡ (returned tt, record container { entrypoints = 2 ∷ 3 ∷ [] })
unfolding restrict_entrypoints contains discard
leaves_bar = refl
