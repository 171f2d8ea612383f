-- ===== src/Concurrency/Soundness.antt =====
-- The state of `fail_fast_imap` in whatever order its threads finish (nameko/utils/concurrency).
use nameko.Prelude.{
  ℕ, ℕ_eq, suc, ◌+◌, ◌*◌, ◌≤◌, ◌<◌, ◌≡◌, ◌⊎◌, inl, inr, true, false, some, List, [], ◌∷◌, ◌++◌,
  length, refl, arith, ◌==◌, Bool-cases, length-append,
}
use nameko.Prelude.Set.{contains, discard, Distinct, discard-Distinct}
use nameko.Exceptions.Registry.{Exc}
use nameko.Action.{Result, returned, raised}
use nameko.Concurrency.{
  Status, waiting, finished, thrown, Imap, fail_fast_imap, handle_result, rounds, resume, Step,
  finishes, resumes, Reach, here, next,
}

length-discard_absent :
    (t : ℕ) (s : List ℕ) → contains t s ≡ false → length (discard t s) ≡ length s
unfolding contains discard
length-discard_absent t [] h = refl
length-discard_absent t (x ∷ s) h = ground (arith, length-discard_absent t s)

pub length-discard :
    (t : ℕ) (s : List ℕ) → Distinct s → contains t s ≡ true → length s ≡ length (discard t s) + 1
unfolding contains discard
length-discard t [] d h = cc
length-discard t (x ∷ s) d h = elim (Bool-cases (x == t)) [
  | inl same ↦ ground (arith, same, ℕ_eq.equal_iff x t, length-discard_absent t s, d.0)
  | inr other ↦ ground (arith, other, length-discard t s d.1)
]

pub List-cases : {A : Type 0} (l : List A) → (l ≡ []) ⊎ ((x : A) × (rest : List A) × (l ≡ x ∷ rest))
List-cases [] = inl refl
List-cases (x ∷ rest) = inr (x, rest, refl)

pub Status-cases :
    (s : Status) → (s ≡ waiting) ⊎ ((s ≡ finished) ⊎ ((exc : Exc) × (s ≡ thrown exc)))
Status-cases waiting = inl refl
Status-cases finished = inr (inl refl)
Status-cases (thrown exc) = inr (inr (exc, refl))

module _ {R : Type 0} where
  -- How much is left to do while the generator waits.
  abbrev pub work_left : Imap R → ℕ
  work_left s = elim s.status [
    | waiting ↦ 2 * length s.spawned_threads + length s.result_queue
    | _ ↦ 0
  ]

  abbrev pub steps : {s t : Imap R} → Reach s t → ℕ
  steps here = 0
  steps (next r st) = suc (steps r)

  -- What holds in every state: while the generator waits nothing is killed and there is something
  -- to wait for; once it has ended no thread runs.
  pub record IsSound (s : Imap R) : Type 0 where
    pub distinct : Distinct s.spawned_threads
    pub unkilled : s.status ≡ waiting → s.killed ≡ []
    pub busy : s.status ≡ waiting → 0 < length s.spawned_threads + length s.result_queue
    pub quiet : s.status ≡ finished → s.spawned_threads ≡ []
    pub dead : (exc : Exc) → s.status ≡ thrown exc → s.killed ≡ s.spawned_threads

  pub fail_fast_imap-IsSound :
      (threads : List ℕ) → Distinct threads → IsSound (fail_fast_imap {R = R} threads)
  unfolding fail_fast_imap
  fail_fast_imap-IsSound [] d = record {
    distinct = d;
    unkilled = cc;
    busy = cc;
    quiet = λ _. refl;
    dead = λ exc h. cc;
  }
  fail_fast_imap-IsSound (t ∷ threads) d = record {
    distinct = d;
    unkilled = λ _. refl;
    busy = λ _. omega arith;
    quiet = λ h. cc;
    dead = λ exc h. cc;
  }

  -- A thread that finishes while the generator waits.
  finish_waiting :
      (t : ℕ) (o : Result Exc R) (s u : Imap R)
      → IsSound s
      → s.status ≡ waiting
      → contains t s.spawned_threads ≡ true
      → handle_result t o s ≡ some u
      → IsSound u × (u.status ≡ waiting) × (work_left u < work_left s)
  unfolding handle_result
  finish_waiting t o s u i w there h =
      let fewer = length-discard t s.spawned_threads i.distinct there in
      let longer = length-append s.result_queue (o ∷ []) in
      let e : u ≡ record s {
        spawned_threads = discard t s.spawned_threads;
        result_queue = s.result_queue ++ o ∷ [];
      } =
        ground (arith, h, there) in
      (
        record {
          distinct = ground (arith, e, discard-Distinct t s.spawned_threads i.distinct);
          unkilled = λ _. ground (arith, e, w, i.unkilled w);
          busy = λ _. ground (arith, e, longer);
          quiet = λ q. ground (arith, e, w, q);
          dead = λ exc q. ground (arith, e, w, q);
        },
        ground (arith, e, w),
        ground (arith, e, w, fewer, longer),
      )

  -- The rounds of the loop, while there is something to wait for.
  rounds-IsSound :
      (queue : List (Result Exc R)) (s : Imap R)
      → Distinct s.spawned_threads
      → s.status ≡ waiting
      → s.killed ≡ []
      → 0 < length s.spawned_threads + length queue
      → IsSound (rounds queue s) × (work_left (rounds queue s) ≤ 2 * length s.spawned_threads)
  unfolding rounds
  rounds-IsSound [] s d w k b = (
    record {
      distinct = d;
      unkilled = λ _. k;
      busy = λ _. ground (arith, b);
      quiet = λ q. ground (arith, w, q);
      dead = λ exc q. ground (arith, w, q);
    },
    ground (arith, w),
  )
  rounds-IsSound (raised exc ∷ queue) s d w k b = (
    record { distinct = d; unkilled = cc; busy = cc; quiet = cc; dead = λ _ _. refl },
    omega arith,
  )
  rounds-IsSound (returned r ∷ queue) s d w k b = elim (List-cases s.spawned_threads) [
    | inl e ↦ rw e (
        (
          record { distinct = tt; unkilled = cc; busy = cc; quiet = λ _. refl; dead = λ _ q. cc },
          omega arith,
        ))
    | inr (t, rest, e) ↦
        let yielding = record s { yielded = s.yielded ++ r ∷ [] } in
        let step : rounds (returned r ∷ queue) s ≡ rounds queue yielding = ground (arith, e) in
        rw step (rounds-IsSound queue yielding d w k (ground (arith, e)))
  ]

  pub finish_runs :
      (t : ℕ) (o : Result Exc R) (s u : Imap R)
      → handle_result t o s ≡ some u
      → contains t s.spawned_threads ≡ true
  unfolding handle_result
  finish_runs t o s u h = ground (arith, h)

  pub resume_waits : (s u : Imap R) → resume s ≡ some u → s.status ≡ waiting
  unfolding resume
  resume_waits s u h = ground (arith, h)

  pub resume-rounds : (s u : Imap R) → resume s ≡ some u → u ≡ rounds s.result_queue s
  unfolding resume
  resume-rounds s u h = ground (arith, h)

  resume_reads : (s u : Imap R) → resume s ≡ some u → 0 < length s.result_queue
  unfolding resume
  resume_reads s u h = ground (arith, h)

  -- No thread of a generator that has ended finishes by itself.
  pub ended_quiet :
      (t : ℕ) (s : Imap R)
      → IsSound s
      → contains t s.spawned_threads ≡ true
      → contains t s.killed ≡ false
      → s.status ≡ waiting
  unfolding contains
  ended_quiet t s i there k = elim (Status-cases s.status) [
    | inl w ↦ w
    | inr (inl q) ↦ ground (arith, i.quiet q, there)
    | inr (inr (exc, q)) ↦ ground (arith, i.dead exc q, there, k)
  ]

  Step-IsSound : (s t : Imap R) → IsSound s → Step s t → IsSound t × (work_left t < work_left s)
  Step-IsSound s u i (finishes t o k h) =
      let there = finish_runs t o s u h in
      let w = ended_quiet t s i there k in
      let (sound, _, less) = finish_waiting t o s u i w there h in (sound, less)
  Step-IsSound s u i (resumes h) =
      let w = resume_waits s u h in
      let (sound, bound) = rounds-IsSound s.result_queue s i.distinct w (i.unkilled w) (i.busy w) in
      rw (resume-rounds s u h) ((sound, ground (arith, bound, w, resume_reads s u h)))

  pub Reach-IsSound :
      (s t : Imap R)
      → IsSound s
      → (r : Reach s t) → IsSound t × (steps r + work_left t ≤ work_left s)
  Reach-IsSound s t i here = (i, omega arith)
  Reach-IsSound s t i (next {t = u} r st) =
      let (before, spent) = Reach-IsSound s u i r in
      let (sound, less) = Step-IsSound u t before st in (sound, omega (arith, spent, less))
