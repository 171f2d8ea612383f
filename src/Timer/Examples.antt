-- ===== src/Timer/Examples.antt =====
-- The theorems about nameko/timer.py at a concrete timer.
use nameko.Prelude.{true, false, some, [], ◌∷◌}
use nameko.Timer.{Timer, completes, lost, run, stopped}
use nameko.Timer.Schedule.{FollowsPlan, planned, run-FollowsPlan}

abbrev every_five : Timer
every_five = record { interval = 5; eager = false }

abbrev eager : Timer
eager = record { interval = 5; eager = true }

run-FollowsPlan_example :
    FollowsPlan
      (planned eager 100)
      (some 117)
      0
      100
      (completes 3 ∷ completes 12 ∷ completes 1 ∷ lost ∷ [])
      (record { fires = 100 ∷ 105 ∷ []; ending = stopped })
unfolding run
run-FollowsPlan_example =
    run-FollowsPlan eager 100 (some 117) false
      (completes 3 ∷ completes 12 ∷ completes 1 ∷ lost ∷ [])
