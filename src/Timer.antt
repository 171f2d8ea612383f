-- ===== src/Timer.antt =====
-- `Timer` of nameko/timer.py: the loop of `_run`. Times are numbers of some unit, and timeouts fire
-- on time.
mod Examples
pub mod Schedule
pub mod Stopping
use nameko.Prelude.{
  ℕ, suc, ◌+◌, ◌-◌, ◌*◌, Bool, true, false, ◌&&◌, ◌||◌, Option, none, some, List, [], ◌∷◌, ltb, leb,
  nat_eq,
}
use nameko.Exceptions.Registry.{Exc}

pub record Timer : Type 0 where
  pub interval : ℕ
  pub eager : Bool

-- What a tick comes to: `handle_result` is called so long after the call of `spawn_worker`, which may
-- have waited for a place in the pool first; or `spawn_worker` raises; or the handler is never called,
-- since the worker was killed or failed before. When the handler is called, the worker has its
-- outcome, but is not torn down yet.
pub data Tick : Type 0 where
  completes : ℕ → Tick
  refused : Exc → Tick
  lost : Tick

-- How the loop ends, or `going` where no more ticks are given.
pub data Ending : Type 0 where
  stopped hanging going : Ending
  failed : Exc → Ending

-- The times at which `spawn_worker` was called, and did not raise.
pub record Run : Type 0 where
  pub fires : List ℕ
  pub ending : Ending

-- `start = 0 if self.eager else 1`
abbrev pub first_count : Timer → ℕ
first_count t = elim t.eager [ true ↦ 0 | false ↦ 1 ]

-- `max(start_time + count * self.interval - time.time(), 0)`
abbrev pub sleep_time : Timer → ℕ → ℕ → ℕ → ℕ
sleep_time t start_time count now = (start_time + count * t.interval) - now

-- Whether `should_stop.wait()` returns before the timeout: the event was sent already, or it comes
-- first; at the same moment either may, as `tie` says.
abbrev pub stops_first : Option ℕ → Bool → ℕ → ℕ → Bool
stops_first none tie now wake = false
stops_first (some at) tie now wake = leb at now || (ltb at wake || (tie && nat_eq at wake))

module _ (t : Timer) (start_time : ℕ) (should_stop : Option ℕ) (tie : Bool) where
  -- The `while` loop, with the next count of the generator and the time.
  unfoldable pub rounds : ℕ → ℕ → List Tick → Run
  rounds count now [] = record { fires = []; ending = going }
  rounds count now (tick ∷ rest) =
      let wake = now + sleep_time t start_time count now in
      elim (stops_first should_stop tie now wake) [
        | true ↦ record { fires = []; ending = stopped }
        | false ↦ elim tick [
          | refused exc ↦ record { fires = []; ending = failed exc }
          | lost ↦ record { fires = wake ∷ []; ending = hanging }
          | completes duration ↦
              let later = rounds (suc count) (wake + duration) rest in
              record { fires = wake ∷ later.fires; ending = later.ending }
        ]
      ]

-- `_run`, from the time at which the thread starts.
unfoldable pub run : Timer → ℕ → Option ℕ → Bool → List Tick → Run
unfolding rounds
run t start_time should_stop tie ticks =
    rounds t start_time should_stop tie (first_count t) start_time ticks
