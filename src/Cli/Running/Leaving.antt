-- ===== src/Cli/Running/Leaving.antt =====
-- When the command line leaves the loop that waits for its services (nameko/cli/run.py).
use nameko.Prelude.{
  string_eq, ◌≡◌, Bool, true, false, none, List, [], ◌∷◌, ◌++◌, refl, ap, sym, ◌∙◌,
}
use mathlib.Core.List.{append-nil, append_assoc}
use nameko.Exceptions.Registry.{Exc}
use nameko.Action.{Result, returned, raised}
use nameko.Cli.Running.{
  Call, stop, cut_stop, kill, Wait, interrupted, failed, keyboard_interrupt, completed, Status,
  waiting, left, Failures, loop,
}

-- What one answer of the keyboard makes of the runner: a stop, or a stop that is cut and a kill.
abbrev pub calls_for : Bool → List Call
calls_for false = stop ∷ []
calls_for true = cut_stop ∷ kill ∷ []

-- `Goes waits calls`: a run of the loop over waits that are cut short, with the calls that it makes.
pub data Goes : List Wait → List Call → Type 0 where
  over : Goes [] []
  again :
      (waits : List Wait) (calls : List Call) → Goes waits calls → Goes (interrupted ∷ waits) calls
  stops :
      (cut : Bool) (waits : List Wait) (calls : List Call)
      → Goes waits calls
      → Goes (keyboard_interrupt cut ∷ waits) (calls_for cut ++ calls)

-- How the loop comes out: it goes over the waits before the first that ends it.
pub data Ends (waits : List Wait) (calls : List Call) : Result Exc Status → Type 0 where
  still : Goes waits calls → Ends waits calls (returned waiting)
  ended :
      (before after : List Wait)
      → waits ≡ before ++ completed ∷ after
      → Goes before calls
      → Ends waits calls (returned left)
  broken :
      (before after : List Wait) (exc : Exc)
      → waits ≡ before ++ failed exc ∷ after
      → Goes before calls
      → Ends waits calls (raised exc)

further :
    (w : Wait) (waits : List Wait) (calls more : List Call) (r : Result Exc Status)
    → ((ws : List Wait) (cs : List Call) → Goes ws cs → Goes (w ∷ ws) (more ++ cs))
    → Ends waits calls r
    → Ends (w ∷ waits) (more ++ calls) r
further w waits calls more r step (still g) = still (step waits calls g)
further w waits calls more r step (ended before after it g) =
    ended (w ∷ before) after (ap (λ l. w ∷ l) it) (step before calls g)
further w waits calls more r step (broken before after exc it g) =
    broken (w ∷ before) after exc (ap (λ l. w ∷ l) it) (step before calls g)

-- Let stopping and killing the runner raise nothing. The loop returns exactly when a wait is
-- completed, and raises exactly when one fails with another exception than an interrupted system
-- call; until then every KeyboardInterrupt stops the runner, and one that cuts the stop kills it.
pub loop-Ends :
    (failures : Failures) (waits : List Wait) (log : List Call)
    → failures.of_stop ≡ none
    → failures.of_kill ≡ none
    → (calls : List Call) × ((loop failures waits log).1 ≡ log ++ calls)
      × Ends waits calls (loop failures waits log).0
unfolding loop
loop-Ends failures [] log s k = ([], sym (append-nil log), still over)
loop-Ends failures (interrupted ∷ waits) log s k =
    let (calls, logged, ends) = loop-Ends failures waits log s k in
    (calls, logged, further interrupted waits calls [] _ again ends)
loop-Ends failures (failed exc ∷ waits) log s k =
    ([], sym (append-nil log), broken [] waits exc refl over)
loop-Ends failures (completed ∷ waits) log s k =
    ([], sym (append-nil log), ended [] waits refl over)
loop-Ends failures (keyboard_interrupt false ∷ waits) log s k =
    let (calls, logged, ends) = loop-Ends failures waits (log ++ stop ∷ []) s k in
    rw s (
      stop ∷ calls,
      logged ∙ append_assoc log (stop ∷ []) calls,
      further (keyboard_interrupt false) waits calls (stop ∷ []) _ (stops false) ends,
    )
loop-Ends failures (keyboard_interrupt true ∷ waits) log s k =
    let (calls, logged, ends) =
      loop-Ends failures waits ((log ++ cut_stop ∷ []) ++ kill ∷ []) s k in
    rw k (
      cut_stop ∷ kill ∷ calls,
      logged
          ∙ (append_assoc (log ++ cut_stop ∷ []) (kill ∷ []) calls
              ∙ append_assoc log (cut_stop ∷ []) (kill ∷ calls)),
      further (keyboard_interrupt true) waits calls (cut_stop ∷ kill ∷ []) _ (stops true) ends,
    )
