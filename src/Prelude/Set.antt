-- ===== src/Prelude/Set.antt =====
-- Python's set, as the list of its members in some order.
use mathlib.Core.Path.{◌≡◌}
use mathlib.Core.Logic.{inl, inr}
use mathlib.Core.Bool.{Bool, false, not, ◌&&◌, ◌||◌}
use mathlib.Core.List.{List, [], ◌∷◌}
use native.Mathlib.Omega.{arith}
use nameko.Prelude.Tests.{if◌then◌else◌, Bool-cases}
use nameko.Prelude.Equality.{Eq, ◌==◌}

module _ {ℓ} {A : Type ℓ} ⦃e : Eq A⦄ where
  -- a in s
  unfoldable pub contains : A → List A → Bool
  contains a [] = false
  contains a (x ∷ s) = x == a || contains a s

  -- s.add(a)
  unfoldable pub add : A → List A → List A
  unfolding contains
  add a s = if contains a s then s else a ∷ s

  -- s.discard(a)
  unfoldable pub discard : A → List A → List A
  discard a [] = []
  discard a (x ∷ s) = let rest = discard a s in if x == a then rest else x ∷ rest

  pub contains-add : (a b : A) (s : List A) → contains b (add a s) ≡ (a == b || contains b s)
  unfolding contains add
  contains-add a b s = ground (arith, e.equal_iff a b, contains_congr a b s)
    where
      contains_congr : (x y : A) (l : List A) → x ≡ y → contains x l ≡ contains y l
      contains_congr x y l p = rw p

  pub contains-discard :
      (a b : A) (s : List A) → contains b (discard a s) ≡ (not (a == b) && contains b s)
  unfolding contains discard
  contains-discard a b [] = ground arith
  contains-discard a b (x ∷ s) =
      ground (arith, e.equal_iff a b, e.equal_iff x a, e.equal_iff x b, contains-discard a b s)

  -- No member occurs twice.
  abbrev pub Distinct : List A → Type 0
  Distinct [] = Unit
  Distinct (x ∷ s) = (contains x s ≡ false) × Distinct s

  pub add-Distinct : (a : A) (s : List A) → Distinct s → Distinct (add a s)
  unfolding add
  add-Distinct a s h = elim (Bool-cases (contains a s)) [
    | inl there ↦ rw there h
    | inr fresh ↦ rw fresh ((fresh, h))
  ]

  pub discard-Distinct : (a : A) (s : List A) → Distinct s → Distinct (discard a s)
  unfolding discard
  discard-Distinct a [] h = tt
  discard-Distinct a (x ∷ s) h = elim (Bool-cases (x == a)) [
    | inl same ↦ rw same (discard-Distinct a s h.1)
    | inr other ↦ rw other ((ground (arith, contains-discard a x s, h.0), discard-Distinct a s h.1))
  ]

pub ruleset set_laws = (contains-add, contains-discard)
