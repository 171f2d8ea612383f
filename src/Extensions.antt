-- ===== src/Extensions.antt =====
-- `Extension`, `SharedExtension` and `iter_extensions` of nameko/extensions.py, and how a container
-- binds the extensions of its service (nameko/containers.py).
mod Examples
pub mod Binding
pub mod Saved
use nameko.Prelude.{
  ℕ, ℕ_eq, suc, String, string_eq, Option, none, some, List, [], ◌∷◌, ◌++◌, if◌then◌else◌,
}
use nameko.Prelude.Dict.{Dict, get, put}
use nameko.Exceptions.{Values}
use nameko.Action.{Result, returned, raised}

-- The class of an extension, the arguments it was made with, and the `sharing_key` that a
-- SharedExtension has.
pub record Kind : Type 0 where
  pub class_name : String
  pub params : Values
  pub sharing_key : Option String

-- An extension object: its identity, what it is made by, the container it is bound to, if any, and
-- its attributes that are extensions, by name, as `inspect.getmembers` lists them.
mutual
  pub data Extension : Type 0 where
    extension : ℕ → Kind → Option ℕ → Members → Extension

  pub data Members : Type 0 where
    end : Members
    member : String → Extension → Members → Members

abbrev pub ident : Extension → ℕ
ident (extension i kind container members) = i

abbrev pub kind_of : Extension → Kind
kind_of (extension i kind container members) = kind

-- A container, by number, with its `shared_extensions`; `next` is the identity of the next object.
pub record Host : Type 0 where
  pub self : ℕ
  pub shared_extensions : Dict String Extension
  pub next : ℕ

-- RuntimeError: a bound extension is bound.
pub data BindError : Type 0 where
  already_bound : ℕ → BindError

-- `container.shared_extensions.get(self.sharing_key)`; only a SharedExtension looks there.
abbrev pub find_shared : Kind → Host → Option Extension
find_shared kind h = elim kind.sharing_key [ none ↦ none | some key ↦ get key h.shared_extensions ]

-- `container.shared_extensions[self.sharing_key] = instance`
abbrev pub save_shared : Kind → Extension → Host → Host
save_shared kind instance h = elim kind.sharing_key [
  | none ↦ h
  | some key ↦ record h { shared_extensions = put key instance h.shared_extensions }
]

-- `is_bound` in `clone`
abbrev check_unbound : ℕ → Option ℕ → Option BindError
check_unbound i none = none
check_unbound i (some c) = some (already_bound i)

-- The instance, once its sub-extensions are bound.
abbrev finish_bind :
    ℕ → Kind → ℕ → Result BindError (Members × Host) → Result BindError (Extension × Host)
finish_bind i kind c (raised e) = raised e
finish_bind i kind c (returned (members, h)) =
    let instance = extension i kind (some c) members in
    returned (instance, save_shared kind instance h)

abbrev bind_member :
    String → Extension → Result BindError (Members × Host) → Result BindError (Members × Host)
bind_member name bound (raised e) = raised e
bind_member name bound (returned (members, h)) = returned (member name bound members, h)

unfoldable mutual
  -- `Extension.bind` and `SharedExtension.bind`
  pub bind : Extension → Host → Result BindError (Extension × Host)
  bind (extension i kind container members) h = elim (find_shared kind h) [
    | some shared ↦ returned (shared, h)
    | none ↦ elim (check_unbound i container) [
      | some e ↦ raised e
      | none ↦
          finish_bind h.next kind h.self (bind_members members (record h { next = suc h.next }))
    ]
  ]

  pub bind_members : Members → Host → Result BindError (Members × Host)
  bind_members end h = returned (end, h)
  bind_members (member name ext rest) h = elim (bind ext h) [
    | raised e ↦ raised e
    | returned (bound, h') ↦ bind_member name bound (bind_members rest h')
  ]

unfoldable mutual
  -- Depth first: the sub-extensions of an extension stand before it.
  pub iter_extensions : Extension → List Extension
  iter_extensions (extension i kind container members) = iter_members members

  pub iter_members : Members → List Extension
  iter_members end = []
  iter_members (member name ext rest) = (iter_extensions ext ++ ext ∷ []) ++ iter_members rest
