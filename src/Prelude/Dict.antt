-- ===== src/Prelude/Dict.antt =====
-- Python's dict: its items in the order of insertion. A write to a key that is there keeps its place.
use mathlib.Core.Path.{◌≡◌, refl, sym, ◌∙◌}
use mathlib.Core.Logic.{inl, inr}
use mathlib.Core.Option.{Option, none, some}
use mathlib.Core.List.{List, [], ◌∷◌, ◌++◌, append-nil, append_assoc}
use native.Mathlib.Omega.{arith}
use nameko.Prelude.Tests.{if◌then◌else◌, Bool-cases}
use nameko.Prelude.Equality.{Eq, ◌==◌}

abbrev pub Dict {ℓ κ} : Type ℓ → Type κ → Type (ℓ ⊔ κ)
Dict K V = List (K × V)

module _ {ℓ κ} {K : Type ℓ} ⦃e : Eq K⦄ {V : Type κ} where
  -- d.get(k)
  unfoldable pub get : K → Dict K V → Option V
  get k [] = none
  get k ((j, v) ∷ d) = if j == k then some v else get k d

  -- d[k] = v
  unfoldable pub put : K → V → Dict K V → Dict K V
  put k v [] = (k, v) ∷ []
  put k v ((j, w) ∷ d) = let rest = put k v d in if j == k then (j, v) ∷ d else (j, w) ∷ rest

  -- d.pop(k, None), without the value
  unfoldable pub remove : K → Dict K V → Dict K V
  remove k [] = []
  remove k ((j, w) ∷ d) = let rest = remove k d in if j == k then rest else (j, w) ∷ rest

  pub get-put :
      (k j : K) (v : V) (d : Dict K V) → get j (put k v d) ≡ (if k == j then some v else get j d)
  unfolding get put
  get-put k j v [] = refl
  get-put k j v ((i, w) ∷ d) =
      ground (arith, e.equal_iff k j, e.equal_iff i k, e.equal_iff i j, get-put k j v d)

  pub get-remove :
      (k j : K) (d : Dict K V) → get j (remove k d) ≡ (if k == j then none else get j d)
  unfolding get remove
  get-remove k j [] = ground arith
  get-remove k j ((i, w) ∷ d) =
      ground (arith, e.equal_iff k j, e.equal_iff i k, e.equal_iff i j, get-remove k j d)

  pub get-empty : (k : K) → get k [] ≡ none
  unfolding get
  get-empty k = refl

  -- d.update(other): the items of `other`, one after the other
  unfoldable pub update : Dict K V → Dict K V → Dict K V
  update d [] = d
  update d ((k, v) ∷ other) = update (put k v d) other

pub ruleset dict_laws = (get-empty, get-put, get-remove)

abbrev pub or_else {ℓ} : {A : Type ℓ} → Option A → Option A → Option A
or_else (some a) o = some a
or_else none o = o

-- No key occurs twice, as in every dict that `put`, `remove` and `update` build.
module _ {ℓ κ} {K : Type ℓ} ⦃e : Eq K⦄ {V : Type κ} where
  abbrev pub IsDict : Dict K V → Type κ
  IsDict [] = Unit
  IsDict ((k, v) ∷ d) = (get k d ≡ none) × IsDict d

  pub put-IsDict : (k : K) (v : V) (d : Dict K V) → IsDict d → IsDict (put k v d)
  unfolding put get
  put-IsDict k v [] h = (refl, tt)
  put-IsDict k v ((j, w) ∷ d) h = elim (Bool-cases (j == k)) [
    | inl same ↦ rw same h
    | inr other ↦
        rw other
          ((rw get-put (ground (arith, e.equal_iff j k, e.equal_iff k j)), put-IsDict k v d h.1))
  ]

  pub remove-IsDict : (k : K) (d : Dict K V) → IsDict d → IsDict (remove k d)
  unfolding remove get
  remove-IsDict k [] h = tt
  remove-IsDict k ((j, w) ∷ d) h = elim (Bool-cases (j == k)) [
    | inl same ↦ rw same (remove-IsDict k d h.1)
    | inr other ↦ rw other ((ground (arith, get-remove k j d), remove-IsDict k d h.1))
  ]

  pub update-IsDict : (d other : Dict K V) → IsDict d → IsDict (update d other)
  unfolding update
  update-IsDict d [] h = h
  update-IsDict d ((k, v) ∷ other) h = update-IsDict (put k v d) other (put-IsDict k v d h)

  -- the later dict wins
  pub get-update :
      (j : K) (d other : Dict K V)
      → IsDict other
      → get j (update d other) ≡ or_else (get j other) (get j d)
  unfolding update get
  get-update j d [] h = refl
  get-update j d ((k, v) ∷ other) h =
      rw (get-update j (put k v d) other h.1)
        (rw get-put (ground (arith, e.equal_iff k j, cong k j)))
    where
      cong : (x y : K) → x ≡ y → get x other ≡ get y other
      cong x y p = rw p

  -- a key that is not there is appended
  put_fresh : (k : K) (v : V) (d : Dict K V) → get k d ≡ none → put k v d ≡ d ++ (k, v) ∷ []
  unfolding put get
  put_fresh k v [] h = refl
  put_fresh k v ((j, w) ∷ d) h = ground (arith, put_fresh k v d)

  get-append : (j : K) (d other : Dict K V) → get j (d ++ other) ≡ or_else (get j d) (get j other)
  unfolding get
  get-append j [] other = refl
  get-append j ((k, v) ∷ d) other = ground (arith, get-append j d other)

  prefix_fresh :
      (k : K) (v : V) (d other : Dict K V) → IsDict (d ++ (k, v) ∷ other) → get k d ≡ none
  unfolding get
  prefix_fresh k v [] other h = refl
  prefix_fresh k v ((j, w) ∷ d) other h = ground (
    arith,
    prefix_fresh k v d other h.1,
    get-append j d ((k, v) ∷ other),
    e.equal_iff j k,
    e.equal_iff k j,
  )

  -- a dict comprehension over distinct keys keeps the items and their order
  pub update-eq-append : (d other : Dict K V) → IsDict (d ++ other) → update d other ≡ d ++ other
  unfolding update
  update-eq-append d [] h = sym (append-nil d)
  update-eq-append d ((k, v) ∷ other) h =
      let step = put_fresh k v d (prefix_fresh k v d other h) in
      let regroup = append_assoc d ((k, v) ∷ []) other in
      rw step (update-eq-append (d ++ (k, v) ∷ []) other (rw regroup h) ∙ regroup)
