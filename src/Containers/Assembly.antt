-- ===== src/Containers/Assembly.antt =====
-- `ServiceContainer.__init__` of nameko/containers.py: the extensions of a service are bound.
pub mod Complete
pub mod Rounds
pub mod Sets
use nameko.Prelude.{ℕ, ℕ_eq, String, Bool, true, false, Option, none, some, List, [], ◌∷◌, ◌++◌}
use nameko.Prelude.Dict.{Dict, get, put}
use nameko.Action.{Result, returned, raised}
use nameko.Extensions.{Extension, ident, Host, BindError, bind, iter_extensions}

-- The sets of the container, by identity; an entrypoint stands with its `method_name`, a dependency
-- provider with its `attr_name`.
pub record Assembled : Type 0 where
  pub host : Host
  pub entrypoints : Dict ℕ (String × Extension)
  pub dependencies : Dict ℕ (String × Extension)
  pub subextensions : Dict ℕ Extension

-- `self.subextensions.update(...)`
unfoldable pub update_subextensions : List Extension → Dict ℕ Extension → Dict ℕ Extension
update_subextensions [] subs = subs
update_subextensions (e ∷ rest) subs = update_subextensions rest (put (ident e) e subs)

abbrev bound_dependency :
    String → Assembled → Result BindError (Extension × Host) → Result BindError Assembled
bound_dependency name a (raised e) = raised e
bound_dependency name a (returned (bound, h)) = returned (record a {
  host = h;
  dependencies = put (ident bound) (name, bound) a.dependencies;
  subextensions = update_subextensions (iter_extensions bound) a.subextensions;
})

abbrev bound_entrypoint :
    String → Assembled → Result BindError (Extension × Host) → Result BindError Assembled
bound_entrypoint name a (raised e) = raised e
bound_entrypoint name a (returned (bound, h)) = returned (record a {
  host = h;
  entrypoints = put (ident bound) (name, bound) a.entrypoints;
  subextensions = update_subextensions (iter_extensions bound) a.subextensions;
})

-- The loop over the dependency providers, by the names of their attributes.
unfoldable pub bind_dependencies :
    List (String × Extension) → Assembled → Result BindError Assembled
bind_dependencies [] a = returned a
bind_dependencies ((name, p) ∷ rest) a = elim (bound_dependency name a (bind p a.host)) [
  | raised e ↦ raised e
  | returned a' ↦ bind_dependencies rest a'
]

-- The loop over the entrypoints, by the names of their methods.
unfoldable pub bind_entrypoints : List (String × Extension) → Assembled → Result BindError Assembled
bind_entrypoints [] a = returned a
bind_entrypoints ((name, p) ∷ rest) a = elim (bound_entrypoint name a (bind p a.host)) [
  | raised e ↦ raised e
  | returned a' ↦ bind_entrypoints rest a'
]

-- A container before anything is bound to it.
abbrev pub blank : ℕ → ℕ → Assembled
blank self next = record {
  host = record { self = self; shared_extensions = []; next = next };
  entrypoints = [];
  dependencies = [];
  subextensions = [];
}

-- The two loops of `__init__`, for what a class declares.
unfoldable pub init :
    ℕ → ℕ → List (String × Extension) → List (String × Extension) → Result BindError Assembled
unfolding bind_dependencies bind_entrypoints
init self next dependencies entrypoints = elim (bind_dependencies dependencies (blank self next)) [
  | raised e ↦ raised e
  | returned a ↦ bind_entrypoints entrypoints a
]
