-- ===== src/Containers/Lifecycle/Death.antt =====
-- The calls that wait for the death of a container (nameko/containers.py).
use nameko.Prelude.{
  ℕ, ◌<◌, ◌≡◌, refl, ap, true, Option, List, [], ◌∷◌, ◌++◌, arith, count_if, Bool-cases, inl, inr,
}
use nameko.Exceptions.Registry.{Exc}
use nameko.Containers.Lifecycle.{
  Pc, killing_entrypoints, killing_extensions, is_ready, resume, Scene, Step, Reach, initial,
}
use nameko.Containers.Lifecycle.Invariant.{Inv-initial, Reach-Inv, is_killer, is_awaiting, killers}

-- A list with a killer in it, taken apart there.
find_killer :
    (l : List Pc)
    → 0 < killers l
    → (before rest : List Pc) × (pc : Pc) × (l ≡ before ++ pc ∷ rest) × (is_killer pc ≡ true)
find_killer [] h = absurd (omega arith)
find_killer (x ∷ l) h = elim (Bool-cases (is_killer x)) [
  | inl yes_killer ↦ ([], l, x, refl, yes_killer)
  | inr other ↦
      let (before, rest, pc, e, k) = find_killer l (ground arith) in
      (x ∷ before, rest, pc, ap (λ m. x ∷ m) e, k)
]

killing_extensions_finishes :
    (s : Scene) (before rest : List Pc) (exc : Option Exc)
    → s.callers ≡ before ++ killing_extensions exc ∷ rest
    → (t : Scene) × Step s t × (is_ready t.container.died ≡ true)
unfolding resume
killing_extensions_finishes s before rest exc e =
    (_, Step.resumes before rest (killing_extensions exc) _ e refl, ground arith)

killer_finishes :
    (s : Scene) (before rest : List Pc) (pc : Pc)
    → s.callers ≡ before ++ pc ∷ rest
    → is_killer pc ≡ true
    → (t : Scene) × Reach s t × (is_ready t.container.died ≡ true)
unfolding resume
killer_finishes s before rest (killing_extensions exc) e k =
    let (t, step, done) = killing_extensions_finishes s before rest exc e in
    (t, Reach.next Reach.here step, done)
killer_finishes s before rest (killing_entrypoints exc) e k =
    let first = Step.resumes before rest (killing_entrypoints exc) _ e refl in
    let (t, second, done) = killing_extensions_finishes _ [] (before ++ rest) exc refl in
    (t, Reach.next (Reach.next Reach.here first) second, done)
killer_finishes s before rest pc e k = cc

-- In every reachable state where `kill` has begun, the outcome is decided or can be: no such state
-- is a deadlock for the calls of `stop` and `kill` that wait for it.
pub death_comes :
    {max_workers : ℕ} {s : Scene}
    → Reach (initial max_workers) s
    → s.container.being_killed ≡ true
    → (t : Scene) × Reach s t × (is_ready t.container.died ≡ true)
death_comes {max_workers} {s} r k = elim (Bool-cases (is_ready s.container.died)) [
  | inl ready ↦ (s, Reach.here, ready)
  | inr open_yet ↦
      let active = (Reach-Inv (Inv-initial max_workers) r).promised k open_yet in
      let (before, rest, pc, e, killer) = find_killer s.callers active in
      killer_finishes s before rest pc e killer
]

-- From every reachable state in which a call of `stop` or `kill` waits for the outcome of the
-- container, a state in which that outcome is decided can be reached.
pub awaited_death_comes :
    {max_workers : ℕ} {s : Scene}
    → Reach (initial max_workers) s
    → 0 < count_if is_awaiting s.callers
    → (t : Scene) × Reach s t × (is_ready t.container.died ≡ true)
awaited_death_comes {max_workers} r waiting =
    death_comes r ((Reach-Inv (Inv-initial max_workers) r).awaited waiting)
