-- ===== src/Prelude/Scan.antt =====
-- Texts as lists of code points, and the longest prefix that passes a test, as a pattern of `re` takes.
use nameko.Prelude.Tests.{if◌then◌else◌, Bool-cases}
use nameko.Prelude.Lists.{All}
use Prim.Native.Nat.{ℕ}
use mathlib.Core.Path.{◌≡◌, refl, ap, subst}
use mathlib.Core.Logic.{inl, inr}
use mathlib.Core.Bool.{Bool, true, false}
use mathlib.Core.List.{List, [], ◌∷◌, ◌++◌}
use native.Mathlib.Omega.{arith}

abbrev pub Text : Type 0
Text = List ℕ

-- The longest prefix of characters that pass a test, and what stands after it.
unfoldable pub take_while : (ℕ → Bool) → Text → Text
take_while test [] = []
take_while test (c ∷ cs) = let rest = take_while test cs in if test c then c ∷ rest else []

unfoldable pub drop_while : (ℕ → Bool) → Text → Text
drop_while test [] = []
drop_while test (c ∷ cs) = let rest = drop_while test cs in if test c then rest else c ∷ cs

-- All characters of a text pass a test.
abbrev pub Chars : (ℕ → Bool) → Text → Type 0
Chars test = All (λ c. test c ≡ true)

pub take_while-Chars : (test : ℕ → Bool) (cs : Text) → Chars test (take_while test cs)
unfolding take_while
take_while-Chars test [] = tt
take_while-Chars test (c ∷ cs) = elim (Bool-cases (test c)) [
  | inl yes_it ↦ rw yes_it ((yes_it, take_while-Chars test cs))
  | inr no_it ↦ rw no_it tt
]

pub take_while_stops :
    (test : ℕ → Bool) (xs ys : Text) (c : ℕ)
    → Chars test xs
    → test c ≡ false
    → (take_while test (xs ++ c ∷ ys) ≡ xs) × (drop_while test (xs ++ c ∷ ys) ≡ c ∷ ys)
unfolding take_while drop_while
take_while_stops test [] ys c h n = (ground (arith, n), ground (arith, n))
take_while_stops test (x ∷ xs) ys c h n =
    let (t, d) = take_while_stops test xs ys c h.1 n in
    (ground (arith, h.0, t), ground (arith, h.0, d))

pub take_while-drop_while :
    (test : ℕ → Bool) (cs : Text) → take_while test cs ++ drop_while test cs ≡ cs
unfolding take_while drop_while
take_while-drop_while test [] = refl
take_while-drop_while test (c ∷ cs) = elim (Bool-cases (test c)) [
  | inl yes_it ↦ rw yes_it (ap (λ t. c ∷ t) (take_while-drop_while test cs))
  | inr no_it ↦ rw no_it refl
]

pub drop_while_all : (test : ℕ → Bool) (cs : Text) → Chars test cs → drop_while test cs ≡ []
unfolding drop_while
drop_while_all test [] h = refl
drop_while_all test (c ∷ cs) h = ground (arith, h.0, drop_while_all test cs h.1)

-- What stands first after the longest prefix fails the test.
pub drop_while-first :
    (test : ℕ → Bool) (c : ℕ) (cs ds : Text) → drop_while test cs ≡ c ∷ ds → test c ≡ false
unfolding drop_while
drop_while-first test c [] ds e = absurd (cc)
drop_while-first test c (x ∷ cs) ds e = elim (Bool-cases (test x)) [
  | inl yes_it ↦ drop_while-first test c cs ds (ground (arith, yes_it, e))
  | inr no_it ↦ let it : x ≡ c = ground (arith, no_it, e) in subst (λ y. test y ≡ false) it no_it
]

pub take_while_all : (test : ℕ → Bool) (cs : Text) → Chars test cs → take_while test cs ≡ cs
unfolding take_while
take_while_all test [] h = refl
take_while_all test (c ∷ cs) h = ground (arith, h.0, take_while_all test cs h.1)
