-- ===== src/Timer/Stopping.antt =====
-- How a timer stops, and how it makes up for a worker that took too long (nameko/timer.py).
use nameko.Prelude.{
  ℕ, suc, zero, ◌+◌, ◌*◌, ◌≤◌, ◌<◌, ◌≡◌, inl, inr, Bool, true, false, none, some, List, [], ◌∷◌,
  arith, refl, ap, Bool-cases, subst, All, length, map,
}
use native.Mathlib.Nat.{le-add_right, add-zero}
use nameko.Timer.{Timer, completes, first_count, sleep_time, stops_first, stopped, rounds, run}
use nameko.Timer.Schedule.{planned, wake_time, rounds_stopped, rounds_completed}

abbrev pub replicate : {A : Type 0} → ℕ → A → List A
replicate zero a = []
replicate (suc n) a = a ∷ replicate n a

-- The planned times of so many ticks, from some count on.
abbrev pub grid : Timer → ℕ → ℕ → ℕ → List ℕ
grid t start_time count zero = []
grid t start_time count (suc n) = planned t start_time count ∷ grid t start_time (suc count) n

-- `stop` is called at some time.
module _ (t : Timer) (start_time at : ℕ) (tie : Bool) where
  late_stop : (now wake : ℕ) → now ≤ wake → stops_first (some at) tie now wake ≡ false → wake ≤ at
  late_stop now wake l s = ground (arith, s)

  early_stop : (now wake : ℕ) → at < wake → stops_first (some at) tie now wake ≡ true
  early_stop now wake l = ground arith

  rounds_stop :
      (count now d : ℕ) (durations : List ℕ)
      → at < planned t start_time (count + length durations)
      → let r = rounds t start_time (some at) tie count now (map completes (d ∷ durations)) in
        (r.ending ≡ stopped) × All (λ f. f ≤ at) r.fires
  rounds_stop count now d [] l =
      let s = early_stop now (wake_time t start_time count now) (ground (arith, l)) in
      rw (rounds_stopped t start_time (some at) tie count now (completes d) [] s) ((refl, tt))
  rounds_stop count now d (d' ∷ durations) l =
      let wake = wake_time t start_time count now in
      elim (Bool-cases (stops_first (some at) tie now wake)) [
        | inl s ↦
            rw
              (rounds_stopped t start_time (some at) tie count now (completes d)
                (map completes (d' ∷ durations)) s)
              ((refl, tt))
        | inr s ↦
            let (ends, before) =
              rounds_stop (suc count) (wake + d) d' durations
                (subst (λ (n : ℕ). at < planned t start_time n) (omega arith) l) in
            rw
              (rounds_completed t start_time (some at) tie count now d
                (map completes (d' ∷ durations)) s)
              ((
                ends,
                (
                  late_stop now wake (le-add_right now (sleep_time t start_time count now)) s,
                  before,
                ),
              ))
      ]

-- Let `stop` be called at some time, and let workers complete. Then no worker is spawned after that
-- time, and the loop ends by itself, at the latest with the first tick planned for after it.
pub run-stops :
    (t : Timer) (start_time at : ℕ) (tie : Bool) (d : ℕ) (durations : List ℕ)
    → at < planned t start_time (first_count t + length durations)
    → let r = run t start_time (some at) tie (map completes (d ∷ durations)) in
      (r.ending ≡ stopped) × All (λ f. f ≤ at) r.fires
unfolding run
run-stops t start_time at tie d durations l =
    rounds_stop t start_time at tie (first_count t) start_time d durations l

-- Nothing stops the timer.
module _ (t : Timer) (start_time : ℕ) (tie : Bool) where
  rounds-none : (count now : ℕ) → (rounds t start_time none tie count now []).fires ≡ []
  unfolding rounds
  rounds-none count now = refl

  rounds_catch_up :
      (n count now : ℕ)
      → planned t start_time count + n * t.interval ≤ now + t.interval
      → (rounds t start_time none tie count now (replicate n (completes 0))).fires ≡ replicate n now
  rounds_catch_up zero count now l = rounds-none count now
  rounds_catch_up (suc n) count now l =
      let more : planned t start_time (suc count) + n * t.interval ≤ now + t.interval =
        grind (arith, l) in
      let due : planned t start_time count ≤ now = grind (arith, l) in
      let wake : wake_time t start_time count now ≡ now = omega (arith, due) in
      rw (rounds_completed t start_time none tie count now 0 (replicate n (completes 0)) refl)
        (rw (wake, add-zero now) (ap (λ r. now ∷ r) (rounds_catch_up n (suc count) now more)))

  rounds_on_time :
      (count now : ℕ) (durations : List ℕ)
      → now ≤ planned t start_time count
      → All (λ d. d ≤ t.interval) durations
      → (rounds t start_time none tie count now (map completes durations)).fires
        ≡ grid t start_time count (length durations)
  rounds_on_time count now [] l b = rounds-none count now
  rounds_on_time count now (d ∷ durations) l b =
      let wake : wake_time t start_time count now ≡ planned t start_time count = omega (arith, l) in
      let next : planned t start_time count + d ≤ planned t start_time (suc count) =
        grind (arith, b.0) in
      rw (rounds_completed t start_time none tie count now d (map completes durations) refl) (
        rw wake (
          ap (λ r. planned t start_time count ∷ r)
            (rounds_on_time (suc count) (planned t start_time count + d) durations next b.1)))

  overrun :
      (count d n : ℕ)
      → n * t.interval ≤ d
      → let first = planned t start_time count in
        (rounds t start_time none tie count start_time
          (completes d ∷ replicate n (completes 0))).fires
        ≡ first ∷ replicate n (first + d)
  overrun count d n long =
      let first = planned t start_time count in
      let wake : wake_time t start_time count start_time ≡ first = omega arith in
      let due : planned t start_time (suc count) + n * t.interval ≤ (first + d) + t.interval =
        grind (arith, long) in
      rw
        (rounds_completed t start_time none tie count start_time d (replicate n (completes 0)) refl)
        (rw wake (ap (λ r. first ∷ r) (rounds_catch_up n (suc count) (first + d) due)))

-- Let nothing stop the timer, and no worker take longer than the interval. Then every tick comes at
-- its planned time, so the times do not drift.
pub run-on_time :
    (t : Timer) (start_time : ℕ) (tie : Bool) (durations : List ℕ)
    → All (λ d. d ≤ t.interval) durations
    → (run t start_time none tie (map completes durations)).fires
      ≡ grid t start_time (first_count t) (length durations)
unfolding run
run-on_time t start_time tie durations short =
    rounds_on_time t start_time tie (first_count t) start_time durations
      (le-add_right start_time (first_count t * t.interval)) short

-- Let nothing stop the timer, and the first worker take n intervals or more, and those after it no
-- time. Then the n ticks after the first come all at once, when the first worker has completed.
pub run-catches_up :
    (t : Timer) (start_time : ℕ) (tie : Bool) (d n : ℕ)
    → n * t.interval ≤ d
    → let first = planned t start_time (first_count t) in
      (run t start_time none tie (completes d ∷ replicate n (completes 0))).fires
      ≡ first ∷ replicate n (first + d)
unfolding run
run-catches_up t start_time tie d n long = overrun t start_time tie (first_count t) d n long
