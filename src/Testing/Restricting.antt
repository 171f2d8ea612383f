-- ===== src/Testing/Restricting.antt =====
-- `restrict_entrypoints` of nameko/testing/services.py, on a container whose entrypoints are numbers.
pub mod Named
use nameko.Prelude.{
  ℕ, ℕ_eq, String, string_eq, ◌≡◌, ◌==◌, Bool, true, false, not, ◌&&◌, ◌||◌, Option, none, some,
  List, [], ◌∷◌, Among, first, later, All, Bool-cases, inl, inr, arith, refl, map, if◌then◌else◌,
}
use nameko.Prelude.Set.{contains, discard, contains-discard}
use nameko.Action.{Result, returned, raised}

pub record Container : Type 0 where
  pub started : Bool
  pub entrypoints : List ℕ

-- RuntimeError, and ExtensionNotFound with the names that are missing.
pub data Refusal : Type 0 where
  too_late : Refusal
  not_found : List String → Refusal

module _ (method_name : ℕ → String) where
  -- `set(entrypoints) - entrypoint_names`
  unfoldable pub missing : List String → List ℕ → List String
  unfolding contains
  missing [] deps = []
  missing (name ∷ names) deps =
      let rest = missing names deps in
      if contains name (map method_name deps) then rest else name ∷ rest

  -- The loop over the list of entrypoints, on the set of them.
  unfoldable pub remove_others : List String → List ℕ → List ℕ → List ℕ
  unfolding contains discard
  remove_others names [] entrypoints = entrypoints
  remove_others names (e ∷ deps) entrypoints =
      remove_others names deps
        (if contains (method_name e) names then entrypoints else discard e entrypoints)

  abbrev pub restricted : List String → Container → List String → Result Refusal Unit × Container
  restricted names c [] =
      (returned tt, record c { entrypoints = remove_others names c.entrypoints c.entrypoints })
  restricted names c (name ∷ more) = (raised (not_found (name ∷ more)), c)

  unfoldable pub restrict_entrypoints : Container → List String → Result Refusal Unit × Container
  unfolding missing remove_others
  restrict_entrypoints c names =
      if c.started then (raised too_late, c) else restricted names c (missing names c.entrypoints)
