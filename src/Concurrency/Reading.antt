-- ===== src/Concurrency/Reading.antt =====
-- In what order `fail_fast_imap` reads the outcomes of its threads (nameko/utils/concurrency).
use nameko.Prelude.{ℕ, ℕ_eq, ◌≡◌, inl, inr, some, List, [], ◌∷◌, ◌++◌, map, refl, sym, ◌∙◌, arith}
use mathlib.Core.List.{append_assoc, map-append}
use nameko.Prelude.Set.{Distinct}
use nameko.Exceptions.Registry.{Exc}
use nameko.Action.{Result, returned, raised}
use nameko.Concurrency.{
  waiting, finished, thrown, Imap, fail_fast_imap, handle_result, rounds, resume, outcome, finishes,
  resumes, Reach, here, next,
}
use nameko.Concurrency.Soundness.{
  IsSound, fail_fast_imap-IsSound, Reach-IsSound, List-cases, Status-cases, ended_quiet,
  finish_runs, resume_waits, resume-rounds,
}

module _ {R : Type 0} where
  -- The outcomes of the threads that finished, in that order.
  abbrev pub outcomes : {s t : Imap R} → Reach s t → List (Result Exc R)
  outcomes here = []
  outcomes (next r (finishes t o k h)) = outcomes r ++ o ∷ []
  outcomes (next r (resumes h)) = outcomes r

  -- What is there of the outcomes besides the results that were yielded.
  abbrev others : Imap R → List (Result Exc R)
  others s = elim s.status [
    | waiting ↦ s.result_queue
    | finished ↦ s.result_queue
    | thrown exc ↦ raised exc ∷ s.result_queue
  ]

  rounds-others :
      (queue : List (Result Exc R)) (s : Imap R)
      → s.status ≡ waiting
      → map returned (rounds queue s).yielded ++ others (rounds queue s)
        ≡ map returned s.yielded ++ queue
  unfolding rounds
  rounds-others [] s w = ground (arith, w)
  rounds-others (raised exc ∷ queue) s w = refl
  rounds-others (returned r ∷ queue) s w = elim (List-cases s.spawned_threads) [
    | inl e ↦
        let ended : rounds (returned r ∷ queue) s
            ≡ record s { yielded = s.yielded ++ r ∷ []; result_queue = queue; status = finished } =
          ground (arith, e) in
        rw ended (
          rw (map-append returned s.yielded (r ∷ []))
            (append_assoc (map returned s.yielded) (returned r ∷ []) queue))
    | inr (t, rest, e) ↦
        let yielding = record s { yielded = s.yielded ++ r ∷ [] } in
        let step : rounds (returned r ∷ queue) s ≡ rounds queue yielding = ground (arith, e) in
        rw step (
          rounds-others queue yielding w
          ∙ rw (map-append returned s.yielded (r ∷ []))
              (append_assoc (map returned s.yielded) (returned r ∷ []) queue))
  ]

  finish-others :
      (t : ℕ) (o : Result Exc R) (s u : Imap R)
      → s.status ≡ waiting
      → handle_result t o s ≡ some u
      → map returned u.yielded ++ others u ≡ (map returned s.yielded ++ others s) ++ o ∷ []
  unfolding handle_result
  finish-others t o s u w h =
      ground (arith, w, h, append_assoc (map returned s.yielded) s.result_queue (o ∷ []))

  resume-others :
      (s u : Imap R)
      → resume s ≡ some u
      → map returned u.yielded ++ others u ≡ map returned s.yielded ++ others s
  resume-others s u h =
      let w = resume_waits s u h in
      rw (resume-rounds s u h) (rounds-others s.result_queue s w ∙ ground (arith, w))

  Reach-others :
      (s u : Imap R) (r : Reach s u)
      → IsSound s
      → map returned s.yielded ++ others s ≡ []
      → outcomes r ≡ map returned u.yielded ++ others u
  Reach-others s u here i e = sym e
  Reach-others s u (next {t = v} r (finishes t o k h)) i e =
      let w = ended_quiet t v (Reach-IsSound s v i r).0 (finish_runs t o v u h) k in
      rw (Reach-others s v r i e) (sym (finish-others t o v u w h))
  Reach-others s u (next {t = v} r (resumes h)) i e =
      Reach-others s v r i e ∙ sym (resume-others v u h)

  start-others :
      (threads : List ℕ) (s : Imap R)
      → s ≡ fail_fast_imap threads
      → map returned s.yielded ++ others s ≡ []
  unfolding fail_fast_imap
  start-others [] s e = rw e
  start-others (t ∷ threads) s e = rw e

  outcome_returned :
      (s : Imap R) (results : List R)
      → outcome s ≡ some (returned results)
      → (s.status ≡ finished) × (s.yielded ≡ results)
  unfolding outcome
  outcome_returned s results h = elim (Status-cases s.status) [
    | inl w ↦ ground (arith, w, h)
    | inr (inl q) ↦ (q, ground (arith, q, h))
    | inr (inr (exc, q)) ↦ ground (arith, q, h)
  ]

  outcome_raised : (s : Imap R) (exc : Exc) → outcome s ≡ some (raised exc) → s.status ≡ thrown exc
  unfolding outcome
  outcome_raised s exc h = elim (Status-cases s.status) [
    | inl w ↦ ground (arith, w, h)
    | inr (inl q) ↦ ground (arith, q, h)
    | inr (inr (exc', q)) ↦ ground (arith, q, h)
  ]

  -- What the outcomes of the threads are, if the call has come to this.
  abbrev pub Reads : List (Result Exc R) → Imap R → Result Exc (List R) → Type 0
  Reads came s (raised exc) =
      (came ≡ map returned s.yielded ++ raised exc ∷ s.result_queue)
      × (s.killed ≡ s.spawned_threads)
  Reads came s (returned results) =
      (came ≡ map returned results ++ s.result_queue) × (s.spawned_threads ≡ [])

  -- Whatever the call of distinct threads comes to was read from the outcomes in the order in which
  -- threads finished. If it raises, then what the first thread to fail raised, and each thread that
  -- had not finished was killed. If it returns, then the results of those that finished first, which
  -- is all of them unless outcomes are left in the queue; and every thread has finished.
  pub imap-Reads :
      (threads : List ℕ) (s : Imap R) (o : Result Exc (List R))
      → Distinct threads
      → (r : Reach (fail_fast_imap threads) s) → outcome s ≡ some o
      → Reads (outcomes r) s o
  imap-Reads threads s (raised exc) d r h =
      let i = fail_fast_imap-IsSound threads d in
      let read =
        Reach-others (fail_fast_imap threads) s r i
          (start-others threads (fail_fast_imap threads) refl) in
      let q = outcome_raised s exc h in
      (read ∙ ground (arith, q), (Reach-IsSound (fail_fast_imap threads) s i r).0.dead exc q)
  imap-Reads threads s (returned results) d r h =
      let i = fail_fast_imap-IsSound threads d in
      let read =
        Reach-others (fail_fast_imap threads) s r i
          (start-others threads (fail_fast_imap threads) refl) in
      let (q, y) = outcome_returned s results h in
      (read ∙ ground (arith, q, y), (Reach-IsSound (fail_fast_imap threads) s i r).0.quiet q)
