-- ===== src/Testing/Restricting/Named.antt =====
-- Which entrypoints are left when they are restricted (nameko/testing/services.py).
use nameko.Prelude.{
  ℕ, ℕ_eq, String, string_eq, ◌≡◌, Bool, true, false, not, ◌&&◌, List, [], ◌∷◌, All, Bool-cases,
  inl, inr, arith, refl, ap, map, if◌then◌else◌,
}
use nameko.Prelude.Set.{contains, discard, contains-discard}
use nameko.Action.{Result, returned, raised}
use nameko.Testing.Restricting.{
  Container, Refusal, too_late, not_found, missing, remove_others, restricted, restrict_entrypoints,
}

module _ (method_name : ℕ → String) where
  same_name :
      (names : List String) (d e : ℕ)
      → d ≡ e
      → contains (method_name d) names ≡ contains (method_name e) names
  same_name names d e p = ap (λ x. contains (method_name x) names) p

  contains-remove_others :
      (names : List String) (deps s : List ℕ) (e : ℕ)
      → contains e (remove_others method_name names deps s)
        ≡ (contains e s && not (contains e deps && not (contains (method_name e) names)))
  unfolding remove_others contains
  contains-remove_others names [] s e = ground arith
  contains-remove_others names (d ∷ deps) s e = elim (Bool-cases (contains (method_name d) names)) [
    | inl named ↦ ground (arith, named, contains-remove_others names deps s e, same_name names d e)
    | inr other ↦ ground (
      arith,
      other,
      contains-remove_others names deps (discard d s) e,
      same_name names d e,
      contains-discard d e s,
    )
  ]

  -- A name that is not missing is that of an entrypoint.
  missing-none :
      (names : List String) (deps : List ℕ)
      → missing method_name names deps ≡ []
      → All (λ name. contains name (map method_name deps) ≡ true) names
  unfolding missing
  missing-none [] deps h = tt
  missing-none (name ∷ names) deps h = elim (Bool-cases (contains name (map method_name deps))) [
    | inl is_there ↦ (is_there, missing-none names deps (ground (arith, is_there, h)))
    | inr absent ↦ absurd (ground (arith, absent, h))
  ]

  missing-some :
      (names : List String) (deps : List ℕ)
      → All (λ name. contains name (map method_name deps) ≡ false) (missing method_name names deps)
  unfolding missing
  missing-some [] deps = tt
  missing-some (name ∷ names) deps = elim (Bool-cases (contains name (map method_name deps))) [
    | inl is_there ↦ rw is_there (missing-some names deps)
    | inr absent ↦ rw absent ((absent, missing-some names deps))
  ]

  -- How a restriction comes out: it is done, and just the entrypoints that are named are left, of
  -- which every name has one; or it is refused, and the container is as it was.
  pub data Restricts (c : Container) (names : List String)
      : Result Refusal Unit × Container → Type 0 where
    done :
        (c' : Container)
        → c.started ≡ false
        → All (λ name. contains name (map method_name c.entrypoints) ≡ true) names
        → ((e : ℕ)
            → contains e c'.entrypoints
              ≡ (contains e c.entrypoints && contains (method_name e) names))
        → Restricts c names (returned tt, c')
    late : c.started ≡ true → Restricts c names (raised too_late, c)
    unknown :
        (name : String) (more : List String)
        → c.started ≡ false
        → All (λ n. contains n (map method_name c.entrypoints) ≡ false) (name ∷ more)
        → Restricts c names (raised (not_found (name ∷ more)), c)

  -- Restricting the entrypoints of a container that is not started leaves exactly those that are
  -- named, if every name is that of an entrypoint. Else it raises, with the names that are missing, and
  -- changes nothing; so it does for a container that was started.
  pub restrict_entrypoints-Restricts :
      (c : Container) (names : List String)
      → Restricts c names (restrict_entrypoints method_name c names)
  unfolding restrict_entrypoints
  restrict_entrypoints-Restricts c names = by_start c.started refl
    where
      found :
          (l : List String)
          → c.started ≡ false
          → (l ≡ [] → All (λ name. contains name (map method_name c.entrypoints) ≡ true) names)
          → All (λ n. contains n (map method_name c.entrypoints) ≡ false) l
          → Restricts c names (restricted method_name names c l)
      found [] stopped h k =
          done _ stopped (h refl)
            (λ e. ground (arith, contains-remove_others names c.entrypoints c.entrypoints e))
      found (name ∷ more) stopped h k = unknown name more stopped k

      by_start :
          (b : Bool)
          → c.started ≡ b
          → Restricts c names (
              if b
              then (raised too_late, c)
              else restricted method_name names c (missing method_name names c.entrypoints))
      by_start true started = late started
      by_start false stopped =
          found (missing method_name names c.entrypoints) stopped (missing-none names c.entrypoints)
            (missing-some names c.entrypoints)
