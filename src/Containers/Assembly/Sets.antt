-- ===== src/Containers/Assembly/Sets.antt =====
-- The sets of extensions of a container, and what of them is bound to it (nameko/containers.py).
use nameko.Prelude.{
  ℕ, ℕ_eq, String, ◌≡◌, inl, inr, Bool, true, false, none, some, List, [], ◌∷◌, ◌++◌, arith, All,
  All-append, ◌==◌, ==-refl, Bool-cases,
}
use nameko.Prelude.Dict.{Dict, get, put, get-put}
use nameko.Extensions.{
  Extension, extension, Members, end, member, ident, iter_extensions, iter_members,
}
use nameko.Extensions.Saved.{IsBound, AreBound}
use nameko.Containers.Assembly.{update_subextensions}

mutual
  unfolding iter_extensions

  pub parts-IsBound : (c : ℕ) (e : Extension) → IsBound c e → All (IsBound c) (iter_extensions e)
  parts-IsBound c (extension i kind container members) b = members-AreBound c members b.1

  members-AreBound :
      (c : ℕ) (members : Members) → AreBound c members → All (IsBound c) (iter_members members)
  members-AreBound c end b = tt
  members-AreBound c (member name e rest) b =
      All-append (IsBound c) (iter_extensions e ++ e ∷ []) (iter_members rest)
        (All-append (IsBound c) (iter_extensions e) (e ∷ []) (parts-IsBound c e b.0) (b.0, tt))
        (members-AreBound c rest b.1)

-- Whether an object is in a set.
abbrev pub holds : {A : Type 0} → ℕ → Dict ℕ A → Bool
holds i d = elim (get i d) [ none ↦ false | some _ ↦ true ]

put_holds :
    {A : Type 0} (i j : ℕ) (v : A) (d : Dict ℕ A) → holds j d ≡ true → holds j (put i v d) ≡ true
put_holds i j v d h = ground (arith, get-put i j v d, h)

put_holds_self : {A : Type 0} (i : ℕ) (v : A) (d : Dict ℕ A) → holds i (put i v d) ≡ true
put_holds_self i v d = ground (arith, get-put i i v d, ==-refl i)

update_holds :
    (l : List Extension) (j : ℕ) (subs : Dict ℕ Extension)
    → holds j subs ≡ true
    → holds j (update_subextensions l subs) ≡ true
unfolding update_subextensions
update_holds [] j subs h = h
update_holds (e ∷ rest) j subs h =
    update_holds rest j (put (ident e) e subs) (put_holds (ident e) j e subs h)

pub update_adds :
    (l : List Extension) (subs : Dict ℕ Extension)
    → All (λ x. holds (ident x) (update_subextensions l subs) ≡ true) l
unfolding update_subextensions
update_adds [] subs = tt
update_adds (e ∷ rest) subs = (
  update_holds rest (ident e) (put (ident e) e subs) (put_holds_self (ident e) e subs),
  update_adds rest (put (ident e) e subs),
)

-- Everything in a set of extensions is bound to the container.
abbrev pub SubsBound : ℕ → Dict ℕ Extension → Type 0
SubsBound c subs = (i : ℕ) (x : Extension) → get i subs ≡ some x → IsBound c x

pub update_bound :
    (c : ℕ) (l : List Extension) (subs : Dict ℕ Extension)
    → All (IsBound c) l
    → SubsBound c subs
    → SubsBound c (update_subextensions l subs)
unfolding update_subextensions
update_bound c [] subs b h = h
update_bound c (e ∷ rest) subs b h = update_bound c rest (put (ident e) e subs) b.1 (λ i x g.
    elim (Bool-cases (ident e == i)) [
      | inl same ↦
          let new : x ≡ e = ground (arith, get-put (ident e) i e subs, same, g) in rw new b.0
      | inr other ↦ h i x (ground (arith, get-put (ident e) i e subs, other, g))
    ])

All-map : {A : Type 0} (P Q : A → Type 0) (l : List A) → ((a : A) → P a → Q a) → All P l → All Q l
All-map P Q [] f h = tt
All-map P Q (x ∷ l) f h = (f x h.0, All-map P Q l f h.1)

-- An extension is bound, and its parts are among the sub-extensions.
abbrev pub Reached : ℕ → Dict ℕ Extension → Extension → Type 0
Reached c subs e = IsBound c e × All (λ x. holds (ident x) subs ≡ true) (iter_extensions e)

abbrev pub SetReached : ℕ → Dict ℕ Extension → Dict ℕ (String × Extension) → Type 0
SetReached c subs d =
    (i : ℕ) (name : String) (e : Extension) → get i d ≡ some (name, e) → Reached c subs e

pub more-Reached :
    (c : ℕ) (l : List Extension) (subs : Dict ℕ Extension) (e : Extension)
    → Reached c subs e
    → Reached c (update_subextensions l subs) e
more-Reached c l subs e r = (
  r.0,
  All-map (λ x. holds (ident x) subs ≡ true)
      (λ x. holds (ident x) (update_subextensions l subs) ≡ true) (iter_extensions e)
      (λ x h. update_holds l (ident x) subs h) r.1,
)

pub put-Reached :
    (c : ℕ) (name : String) (new : Extension) (subs : Dict ℕ Extension)
    (d : Dict ℕ (String × Extension))
    → Reached c subs new
    → SetReached c subs d
    → SetReached c subs (put (ident new) (name, new) d)
put-Reached c name new subs d r s i n e g = elim (Bool-cases (ident new == i)) [
  | inl same ↦
      let it : e ≡ new = ground (arith, get-put (ident new) i (name, new) d, same, g) in rw it r
  | inr other ↦ s i n e (ground (arith, get-put (ident new) i (name, new) d, other, g))
]
