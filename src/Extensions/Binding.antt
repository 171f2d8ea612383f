-- ===== src/Extensions/Binding.antt =====
-- What binding an extension to a container makes (nameko/extensions.py).
use nameko.Prelude.{
  ℕ, ℕ_eq, suc, String, string_eq, ◌≡◌, inl, inr, Option, none, some, refl, subst, arith,
  Option-cases,
}
use nameko.Prelude.Dict.{get}
use nameko.Action.{returned}
use nameko.Extensions.{
  Kind, Extension, extension, Members, end, member, kind_of, Host, find_shared, save_shared, bind,
  bind_members,
}
use nameko.Extensions.Saved.{
  IsUnbound, AreUnbound, IsBound, AreBound, IsSound, Later, Later-refl, Later-trans, Stands, found,
  made, found-IsBound, saved-IsSound, saved-Later, saved_found, found_key, saved_next,
}

pub record Binds (p : Extension) (h : Host) (e : Extension) (h' : Host) : Type 0 where
  pub result : bind p h ≡ returned (e, h')
  pub bound : IsBound h.self e
  pub later : Later h h'
  pub sound : IsSound h'
  pub stands : Stands p h h' e
  pub saved :
      (key : String) → (kind_of p).sharing_key ≡ some key → get key h'.shared_extensions ≡ some e

-- What binding members gives.
record BindAll (members : Members) (h : Host) (out : Members) (h' : Host) : Type 0 where
  result : bind_members members h ≡ returned (out, h')
  bound : AreBound h.self out
  later : Later h h'
  sound : IsSound h'

finish_Binds :
    (i : ℕ) (kind : Kind) (container : Option ℕ) (members out : Members) (h h1 : Host)
    → container ≡ none
    → find_shared kind h ≡ none
    → BindAll members (record h { next = suc h.next }) out h1
    → let e = extension h.next kind (some h.self) out in
      Binds (extension i kind container members) h e (save_shared kind e h1)
unfolding bind
finish_Binds i kind container members out h h1 u f b =
    let e = extension h.next kind (some h.self) out in
    let l : Later h h1 = record {
      same = b.later.same;
      grows = omega (arith, b.later.grows);
      keeps = b.later.keeps;
    } in
    record {
      result = ground (arith, f, u, b.result);
      bound = (refl, b.bound);
      later = saved-Later kind e h h1 f l;
      sound = saved-IsSound kind e h1 (rw b.later.same ((refl, b.bound))) refl b.sound;
      stands = made f refl refl (omega (arith, b.later.grows, saved_next kind e h1));
      saved = λ key k. saved_found kind e h1 key k;
    }

found_Binds :
    (p : Extension) (h : Host) (e : Extension)
    → IsSound h
    → bind p h ≡ returned (e, h)
    → find_shared (kind_of p) h ≡ some e
    → Binds p h e h
found_Binds p h e i r f = record {
  result = r;
  bound = found-IsBound (kind_of p) h e i f;
  later = Later-refl h;
  sound = i;
  stands = found f refl;
  saved = λ key k. found_key (kind_of p) h e key f k;
}

mutual
  unfolding bind

  bind_all :
      (p : Extension) (h : Host)
      → IsUnbound p
      → IsSound h
      → (e : Extension) × (h' : Host) × Binds p h e h'
  bind_all (extension i kind container members) h u s = elim (Option-cases (find_shared kind h)) [
    | inr (e, f) ↦
        (e, h, found_Binds (extension i kind container members) h e s (ground (arith, f)) f)
    | inl f ↦
        let (out, h1, b) =
          bind_each members (record h { next = suc h.next }) u.1
            (record { shared_bound = s.shared_bound; shared_keyed = s.shared_keyed }) in
        (_, _, finish_Binds i kind container members out h h1 u.0 f b)
  ]

  bind_each :
      (members : Members) (h : Host)
      → AreUnbound members
      → IsSound h
      → (out : Members) × (h' : Host) × BindAll members h out h'
  bind_each end h u s =
      (end, h, record { result = refl; bound = tt; later = Later-refl h; sound = s })
  bind_each (member name p rest) h u s =
      let (e, h1, b) = bind_all p h u.0 s in
      let (out, h2, c) = bind_each rest h1 u.1 b.sound in
      (
        member name e out,
        h2,
        record {
          result = ground (arith, b.result, c.result);
          bound = (b.bound, subst (λ (x : ℕ). AreBound x out) b.later.same c.bound);
          later = Later-trans h h1 h2 b.later c.later;
          sound = c.sound;
        },
      )

-- Binding an extension of which no part is bound succeeds. It gives the instance that the container
-- shares under its key, if there is one, and changes nothing; or else a new object of its class,
-- which is shared if it has a key. All parts of what it gives are bound to the container, and what
-- was shared before stays so.
pub bind-Binds :
    (p : Extension) (h : Host)
    → IsUnbound p
    → IsSound h
    → (e : Extension) × (h' : Host) × Binds p h e h'
bind-Binds p h u s = bind_all p h u s

bind_found :
    (q : Extension) (h : Host) (e : Extension)
    → find_shared (kind_of q) h ≡ some e
    → bind q h ≡ returned (e, h)
unfolding bind
bind_found (extension i kind container members) h e f = ground (arith, f)

-- A container to which more was bound.
pub data Bindings (h : Host) : Host → Type 0 where
  no_more : Bindings h h
  and_bind :
      {h1 h2 : Host} (p e : Extension)
      → Bindings h h1
      → IsUnbound p
      → bind p h1 ≡ returned (e, h2)
      → Bindings h h2

bind_sound :
    (p e : Extension) (h h' : Host)
    → IsUnbound p
    → IsSound h
    → bind p h ≡ returned (e, h')
    → Binds p h e h'
bind_sound p e h h' u s r =
    let (e', h'', b) = bind-Binds p h u s in
    let same : e ≡ e' = ground (arith, r, b.result) in
    let same' : h' ≡ h'' = ground (arith, r, b.result) in rw (same, same') b

Bindings-Later : (h h' : Host) → IsSound h → Bindings h h' → Later h h' × IsSound h'
Bindings-Later h h' s no_more = (Later-refl h, s)
Bindings-Later h h' s (and_bind {h1 = h1} p e before u r) =
    let (l, s1) = Bindings-Later h h1 s before in
    let b = bind_sound p e h1 h' u s1 r in (Later-trans h h1 h' l b.later, b.sound)

-- Once an extension with a sharing key was bound to a container, then whatever is bound to it after
-- that, binding another with the same key gives the same instance and changes nothing.
pub bind-shares :
    (p q e : Extension) (key : String) (h h1 h2 : Host)
    → IsSound h
    → IsUnbound p
    → (kind_of p).sharing_key ≡ some key
    → (kind_of q).sharing_key ≡ some key
    → bind p h ≡ returned (e, h1)
    → Bindings h1 h2
    → bind q h2 ≡ returned (e, h2)
bind-shares p q e key h h1 h2 s u k k' r more =
    let b = bind_sound p e h h1 u s r in
    let (l, _) = Bindings-Later h1 h2 b.sound more in
    bind_found q h2 e (ground (arith, k', l.keeps key e (b.saved key k)))
