-- ===== src/Extensions/Saved.antt =====
-- Extensions that are bound, and what a container shares as more is bound to it
-- (nameko/extensions.py).
use nameko.Prelude.{
  ℕ, ℕ_eq, ◌≤◌, ◌<◌, String, string_eq, ◌≡◌, ◌⊎◌, inl, inr, none, some, refl, ◌∙◌, subst, arith,
  Option-cases, ==-refl, ◌==◌, Bool-cases,
}
use nameko.Prelude.Dict.{Dict, get, put, get-put}
use nameko.Extensions.{
  Kind, Extension, extension, Members, end, member, ident, kind_of, Host, find_shared, save_shared,
}

-- An extension of which no part is bound, as the body of a class declares it.
abbrev mutual
  pub IsUnbound : Extension → Type 0
  IsUnbound (extension i kind container members) = (container ≡ none) × AreUnbound members

  pub AreUnbound : Members → Type 0
  AreUnbound end = Unit
  AreUnbound (member name ext rest) = IsUnbound ext × AreUnbound rest

-- An extension that is bound to a container with all of its parts.
abbrev mutual
  pub IsBound : ℕ → Extension → Type 0
  IsBound c (extension i kind container members) = (container ≡ some c) × AreBound c members

  pub AreBound : ℕ → Members → Type 0
  AreBound c end = Unit
  AreBound c (member name ext rest) = IsBound c ext × AreBound c rest

-- What is shared is bound to the container, under its own key.
pub record IsSound (h : Host) : Type 0 where
  pub shared_bound :
      (key : String) (e : Extension) → get key h.shared_extensions ≡ some e → IsBound h.self e
  pub shared_keyed :
      (key : String) (e : Extension)
      → get key h.shared_extensions ≡ some e
      → (kind_of e).sharing_key ≡ some key

-- A container after more was bound to it.
pub record Later (h h' : Host) : Type 0 where
  pub same : h'.self ≡ h.self
  pub grows : h.next ≤ h'.next
  pub keeps :
      (key : String) (e : Extension)
      → get key h.shared_extensions ≡ some e
      → get key h'.shared_extensions ≡ some e

pub Later-refl : (h : Host) → Later h h
Later-refl h = record { same = refl; grows = omega arith; keeps = λ key e p. p }

pub Later-trans : (h h' h'' : Host) → Later h h' → Later h' h'' → Later h h''
Later-trans h h' h'' a b = record {
  same = b.same ∙ a.same;
  grows = omega (arith, a.grows, b.grows);
  keeps = λ key e p. b.keeps key e (a.keeps key e p);
}

-- The object that binding gives: the one that is shared, or a new one of the same class.
pub data Stands (p : Extension) (h h' : Host) (e : Extension) : Type 0 where
  found : find_shared (kind_of p) h ≡ some e → h' ≡ h → Stands p h h' e
  made :
      find_shared (kind_of p) h ≡ none
      → ident e ≡ h.next
      → kind_of e ≡ kind_of p
      → h.next < h'.next
      → Stands p h h' e

pub found-IsBound :
    (kind : Kind) (h : Host) (e : Extension)
    → IsSound h
    → find_shared kind h ≡ some e
    → IsBound h.self e
found-IsBound kind h e i f = elim (Option-cases kind.sharing_key) [
  | inl k ↦ ground (arith, k, f)
  | inr (key, k) ↦ i.shared_bound key e (ground (arith, k, f))
]

saves_none :
    (kind : Kind) (e : Extension) (h : Host) → kind.sharing_key ≡ none → save_shared kind e h ≡ h
saves_none kind e h k = ground (arith, k)

saves_some :
    (kind : Kind) (e : Extension) (h : Host) (key : String)
    → kind.sharing_key ≡ some key
    → save_shared kind e h ≡ record h { shared_extensions = put key e h.shared_extensions }
saves_some kind e h key k = ground (arith, k)

-- What `put` leaves under a key: the new value, or what was there.
got_put :
    (key j : String) (v w : Extension) (d : Dict String Extension)
    → get j (put key v d) ≡ some w
    → ((key ≡ j) × (w ≡ v)) ⊎ (get j d ≡ some w)
got_put key j v w d g = elim (Bool-cases (key == j)) [
  | inl same ↦ inl ((string_eq.equal_iff key j).0 same, ground (arith, get-put key j v d, same, g))
  | inr other ↦ inr (ground (arith, get-put key j v d, other, g))
]

pub saved-IsSound :
    (kind : Kind) (e : Extension) (h : Host)
    → IsBound h.self e
    → kind_of e ≡ kind
    → IsSound h
    → IsSound (save_shared kind e h)
saved-IsSound kind e h b q s = elim (Option-cases kind.sharing_key) [
  | inl k ↦ rw (saves_none kind e h k) s
  | inr (key, k) ↦ rw (saves_some kind e h key k) (record {
    shared_bound = λ j w g. elim (got_put key j e w h.shared_extensions g) [
      | inl (_, new) ↦ rw new b
      | inr old ↦ s.shared_bound j w old
    ];
    shared_keyed = λ j w g. elim (got_put key j e w h.shared_extensions g) [
      | inl (same, new) ↦ ground (arith, same, new, q, k)
      | inr old ↦ s.shared_keyed j w old
    ];
  })
]

-- The container after the instance was saved, from before its parts were bound.
pub saved-Later :
    (kind : Kind) (e : Extension) (h h1 : Host)
    → find_shared kind h ≡ none
    → Later h h1
    → Later h (save_shared kind e h1)
saved-Later kind e h h1 f l = elim (Option-cases kind.sharing_key) [
  | inl k ↦ rw (saves_none kind e h1 k) l
  | inr (key, k) ↦ rw (saves_some kind e h1 key k) (record {
    same = l.same;
    grows = l.grows;
    keeps = λ j w g. elim (Bool-cases (key == j)) [
      | inl same ↦
          let nothing : get key h.shared_extensions ≡ none = ground (arith, f, k) in
          let at_j =
            subst (λ (x : String). get x h.shared_extensions ≡ none)
              ((string_eq.equal_iff key j).0 same) nothing in
          ground (arith, at_j, g)
      | inr other ↦ ground (arith, get-put key j e h1.shared_extensions, other, l.keeps j w g)
    ];
  })
]

-- What is saved is found.
pub saved_found :
    (kind : Kind) (e : Extension) (h : Host) (key : String)
    → kind.sharing_key ≡ some key
    → get key (save_shared kind e h).shared_extensions ≡ some e
saved_found kind e h key k =
    rw (saves_some kind e h key k)
      (ground (arith, get-put key key e h.shared_extensions, ==-refl key))

pub found_key :
    (kind : Kind) (h : Host) (e : Extension) (key : String)
    → find_shared kind h ≡ some e
    → kind.sharing_key ≡ some key
    → get key h.shared_extensions ≡ some e
found_key kind h e key f k = ground (arith, f, k)

pub saved_next : (kind : Kind) (e : Extension) (h : Host) → (save_shared kind e h).next ≡ h.next
saved_next kind e h = ground arith
