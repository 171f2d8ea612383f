-- ===== src/Timer/Schedule.antt =====
-- When a timer fires (nameko/timer.py).
use nameko.Prelude.{
  ℕ, suc, ◌+◌, ◌*◌, ◌≤◌, ◌≡◌, ◌⊎◌, inl, inr, Bool, true, false, Option, some, List, [], ◌∷◌, leb,
  arith, refl, Bool-cases, Option-cases,
}
use nameko.Exceptions.Registry.{Exc}
use nameko.Timer.{
  Timer, Tick, completes, refused, lost, first_count, sleep_time, stops_first, rounds, Run, run,
  going, stopped, hanging, failed,
}

-- A tick fires when it is planned, or, if that is later, when the one before it is over.
abbrev pub IsDue : ℕ → ℕ → ℕ → Type 0
IsDue plan free f = (plan ≤ f) × (free ≤ f) × ((f ≡ plan) ⊎ (f ≡ free))

-- A run of the loop with a planned time for each tick, and a time at which it is told to stop, if
-- any: from a count on, and from a time at which the tick before was over.
pub data FollowsPlan (plan : ℕ → ℕ) (should_stop : Option ℕ)
    : ℕ → ℕ → List Tick → Run → Type 0 where
  no_more :
      (k free : ℕ) → FollowsPlan plan should_stop k free [] (record { fires = []; ending = going })
  told_to_stop :
      (k free f at : ℕ) (tick : Tick) (ticks : List Tick)
      → IsDue (plan k) free f
      → should_stop ≡ some at
      → at ≤ f
      → FollowsPlan plan should_stop k free (tick ∷ ticks) (record { fires = []; ending = stopped })
  fired :
      (k free f d : ℕ) (ticks : List Tick) (later : Run)
      → IsDue (plan k) free f
      → ((at : ℕ) → should_stop ≡ some at → f ≤ at)
      → FollowsPlan plan should_stop (suc k) (f + d) ticks later
      → FollowsPlan plan should_stop k free
          (completes d ∷ ticks)
          (record { fires = f ∷ later.fires; ending = later.ending })
  not_reported :
      (k free f : ℕ) (ticks : List Tick)
      → IsDue (plan k) free f
      → ((at : ℕ) → should_stop ≡ some at → f ≤ at)
      → FollowsPlan plan should_stop k free
          (lost ∷ ticks)
          (record { fires = f ∷ []; ending = hanging })
  not_spawned :
      (k free f : ℕ) (exc : Exc) (ticks : List Tick)
      → IsDue (plan k) free f
      → ((at : ℕ) → should_stop ≡ some at → f ≤ at)
      → FollowsPlan plan should_stop k free
          (refused exc ∷ ticks)
          (record { fires = []; ending = failed exc })

-- The n-th tick is planned for n intervals after the start, the first one counted from 0 if the timer
-- is eager and from 1 if it is not.
abbrev pub planned : Timer → ℕ → ℕ → ℕ
planned t start_time k = start_time + k * t.interval

abbrev pub wake_time : Timer → ℕ → ℕ → ℕ → ℕ
wake_time t start_time count now = now + sleep_time t start_time count now

module _ (t : Timer) (start_time : ℕ) (should_stop : Option ℕ) (tie : Bool) where
  pub rounds_stopped :
      (count now : ℕ) (tick : Tick) (ticks : List Tick)
      → stops_first should_stop tie now (wake_time t start_time count now) ≡ true
      → rounds t start_time should_stop tie count now (tick ∷ ticks)
        ≡ record { fires = []; ending = stopped }
  unfolding rounds
  rounds_stopped count now tick ticks s = rw (s, rounds)

  pub rounds_completed :
      (count now d : ℕ) (ticks : List Tick)
      → stops_first should_stop tie now (wake_time t start_time count now) ≡ false
      → let wake = wake_time t start_time count now in
        let later = rounds t start_time should_stop tie (suc count) (wake + d) ticks in
        rounds t start_time should_stop tie count now (completes d ∷ ticks)
        ≡ record { fires = wake ∷ later.fires; ending = later.ending }
  unfolding rounds
  rounds_completed count now d ticks s = rw (s, rounds)

  rounds_over :
      (count now : ℕ)
      → rounds t start_time should_stop tie count now [] ≡ record { fires = []; ending = going }
  unfolding rounds
  rounds_over count now = refl

  rounds_lost :
      (count now : ℕ) (ticks : List Tick)
      → stops_first should_stop tie now (wake_time t start_time count now) ≡ false
      → rounds t start_time should_stop tie count now (lost ∷ ticks)
        ≡ record { fires = wake_time t start_time count now ∷ []; ending = hanging }
  unfolding rounds
  rounds_lost count now ticks s = rw (s, rounds)

  rounds_refused :
      (count now : ℕ) (exc : Exc) (ticks : List Tick)
      → stops_first should_stop tie now (wake_time t start_time count now) ≡ false
      → rounds t start_time should_stop tie count now (refused exc ∷ ticks)
        ≡ record { fires = []; ending = failed exc }
  unfolding rounds
  rounds_refused count now exc ticks s = rw (s, rounds)

  wake_planned :
      (count now : ℕ)
      → (planned t start_time count ≤ wake_time t start_time count now)
        × (now ≤ wake_time t start_time count now)
        × ((wake_time t start_time count now ≡ planned t start_time count)
            ⊎ (wake_time t start_time count now ≡ now))
  wake_planned count now = elim (Bool-cases (leb now (planned t start_time count))) [
    | inl early ↦ (ground (arith, early), ground (arith, early), inl (ground (arith, early)))
    | inr late ↦ (ground (arith, late), ground (arith, late), inr (ground (arith, late)))
  ]

  wake_in_time :
      (count now at : ℕ)
      → stops_first should_stop tie now (wake_time t start_time count now) ≡ false
      → should_stop ≡ some at
      → wake_time t start_time count now ≤ at
  wake_in_time count now at s e = ground (arith, s, e)

  stopped_in_time :
      (count now : ℕ)
      → stops_first should_stop tie now (wake_time t start_time count now) ≡ true
      → (at : ℕ) × (should_stop ≡ some at) × (at ≤ wake_time t start_time count now)
  stopped_in_time count now s = elim (Option-cases should_stop) [
    | inl never ↦ absurd (ground (arith, never, s))
    | inr (at, e) ↦ (at, e, ground (arith, e, s))
  ]

  stopped-FollowsPlan :
      (count now : ℕ) (tick : Tick) (ticks : List Tick)
      → stops_first should_stop tie now (wake_time t start_time count now) ≡ true
      → FollowsPlan
          (planned t start_time)
          should_stop
          count
          now
          (tick ∷ ticks)
          (rounds t start_time should_stop tie count now (tick ∷ ticks))
  stopped-FollowsPlan count now tick ticks s =
      let (at, e, before) = stopped_in_time count now s in
      rw (rounds_stopped count now tick ticks s) (
        told_to_stop count now (wake_time t start_time count now) at tick ticks
          (wake_planned count now) e before)

  rounds-FollowsPlan :
      (count now : ℕ) (ticks : List Tick)
      → FollowsPlan
          (planned t start_time)
          should_stop
          count
          now
          ticks
          (rounds t start_time should_stop tie count now ticks)
  rounds-FollowsPlan count now [] = rw (rounds_over count now) (no_more count now)
  rounds-FollowsPlan count now (completes d ∷ ticks) =
      let wake = wake_time t start_time count now in
      elim (Bool-cases (stops_first should_stop tie now wake)) [
        | inl s ↦ stopped-FollowsPlan count now (completes d) ticks s
        | inr s ↦ rw (rounds_completed count now d ticks s) (
            fired count now wake d ticks _ (wake_planned count now)
              (λ at e. wake_in_time count now at s e)
              (rounds-FollowsPlan (suc count) (wake + d) ticks))
      ]
  rounds-FollowsPlan count now (lost ∷ ticks) =
      let wake = wake_time t start_time count now in
      elim (Bool-cases (stops_first should_stop tie now wake)) [
        | inl s ↦ stopped-FollowsPlan count now lost ticks s
        | inr s ↦ rw (rounds_lost count now ticks s) (
            not_reported count now wake ticks (wake_planned count now)
              (λ at e. wake_in_time count now at s e))
      ]
  rounds-FollowsPlan count now (refused exc ∷ ticks) =
      let wake = wake_time t start_time count now in
      elim (Bool-cases (stops_first should_stop tie now wake)) [
        | inl s ↦ stopped-FollowsPlan count now (refused exc) ticks s
        | inr s ↦ rw (rounds_refused count now exc ticks s) (
            not_spawned count now wake exc ticks (wake_planned count now)
              (λ at e. wake_in_time count now at s e))
      ]

-- The count of the first tick.
abbrev pub starts_at : Bool → ℕ
starts_at true = 0
starts_at false = 1

-- What the loop of a timer comes to, tick by tick. Each tick fires at its planned time, which is so
-- many intervals after the start, counted from 0 if the timer is eager and from 1 if not; or, if that
-- is later, when the outcome of the worker before was handed over. It fires unless the timer is told
-- to stop before or just then, and the loop stops only if it was told so; where a worker is refused
-- the loop fails, and where one never hands its outcome over it fires no more.
pub run-FollowsPlan :
    (t : Timer) (start_time : ℕ) (should_stop : Option ℕ) (tie : Bool) (ticks : List Tick)
    → FollowsPlan
        (planned t start_time)
        should_stop
        (starts_at t.eager)
        start_time
        ticks
        (run t start_time should_stop tie ticks)
unfolding run
run-FollowsPlan t start_time should_stop tie ticks =
    let it : first_count t ≡ starts_at t.eager = ground arith in
    rw it (rounds-FollowsPlan t start_time should_stop tie (starts_at t.eager) start_time ticks)
