-- ===== src/Containers/Context/Stack.antt =====
-- `deque(maxlen=m)`, which the call id stack is (nameko/containers.py).
use mathlib.Core.List.{append-nil, append_assoc}
use native.Mathlib.Numerals.{add-one}
use nameko.Prelude.{
  ℕ, zero, suc, inl, inr, leb, Bool-cases, ◌+◌, ◌-◌, ◌≤◌, ◌≡◌, refl, ap, sym, ◌∙◌, some, List, [],
  ◌∷◌, ◌++◌, arith, length, drop, last?, length-append, length-drop, drop-append, last?-append,
}
use nameko.Containers.Context.{deque_append, deque_extend}

-- The last `m` items.
abbrev pub newest {ℓ} : {A : Type ℓ} → ℕ → List A → List A
newest m l = drop (length l - m) l

module _ {ℓ} {A : Type ℓ} where
  drop-suc : (k : ℕ) (l : List A) → drop (suc k) l ≡ drop 1 (drop k l)
  drop-suc zero l = refl
  drop-suc (suc k) [] = refl
  drop-suc (suc k) (x ∷ l) = drop-suc k l

  drop-nil : (k : ℕ) → drop {A = A} k [] ≡ []
  drop-nil zero = refl
  drop-nil (suc k) = refl

  newest-snoc :
      (m : ℕ) (l : List A) (x : A) → deque_append m (newest m l) x ≡ newest m (l ++ x ∷ [])
  unfolding deque_append
  newest-snoc m l x = elim (Bool-cases (leb (length l) m)) [
    | inl short ↦
        let none_dropped : length l - m ≡ 0 = ground arith in
        rw (none_dropped, length-append l (x ∷ []), add-one) refl
    | inr long ↦
        let k = length l - m in
        let kept : length (drop k l) ≡ m = ground (arith, length-drop k l) in
        let one : suc m - m ≡ 1 = omega arith in
        let more : length (l ++ x ∷ []) - m ≡ suc k = ground (arith, length-append l (x ∷ [])) in
        rw (kept, one, more, drop-suc k (l ++ x ∷ []), drop-append k l (x ∷ []) (omega arith)) refl
  ]

  deque_extend-newest :
      (m : ℕ) (l xs : List A) → deque_extend m (newest m l) xs ≡ newest m (l ++ xs)
  unfolding deque_extend
  deque_extend-newest m l [] = rw append-nil
  deque_extend-newest m l (x ∷ xs) =
      rw newest-snoc (deque_extend-newest m (l ++ x ∷ []) xs ∙ rw append_assoc)

  -- the deque after the items of `l` and then `x`
  pub deque_fill :
      (m : ℕ) (l : List A) (x : A) → deque_append m (deque_extend m [] l) x ≡ newest m (l ++ x ∷ [])
  deque_fill m l x =
      let filled = ap (λ d. deque_extend m d l) (sym (drop-nil (0 - m))) in
      ap (λ d. deque_append m d x) (filled ∙ deque_extend-newest m [] l) ∙ newest-snoc m l x

  pub length-newest : (m : ℕ) (l : List A) → length (newest m l) ≤ m
  length-newest m l = omega (arith, length-drop (length l - m) l)

  last?-drop : (k : ℕ) (l : List A) (x : A) → k ≤ length l → last? (drop k (l ++ x ∷ [])) ≡ some x
  last?-drop k l x h = rw (drop-append k l (x ∷ []) h) (last?-append (drop k l) x)

  pub last?-newest : (m : ℕ) (l : List A) (x : A) → last? (newest (m + 1) (l ++ x ∷ [])) ≡ some x
  last?-newest m l x =
      last?-drop (length (l ++ x ∷ []) - (m + 1)) l x (omega (arith, length-append l (x ∷ [])))
