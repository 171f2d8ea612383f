-- ===== src/Containers/Assembly/Complete.antt =====
-- What the sets of a container hold is bound to it, with all the parts (nameko/containers.py,
-- nameko/extensions.py).
use nameko.Prelude.{ℕ, ℕ_eq, String, ◌≡◌, List, [], ◌∷◌, refl, arith}
use nameko.Prelude.Dict.{Dict, get, put}
use nameko.Action.{Result, returned}
use nameko.Extensions.{Extension, ident, BindError, iter_extensions}
use nameko.Extensions.Saved.{IsUnbound}
use nameko.Extensions.Binding.{bind-Binds}
use nameko.Containers.Assembly.{
  Assembled, update_subextensions, bind_dependencies, bind_entrypoints, blank, init,
}
use nameko.Containers.Assembly.Rounds.{IsComplete, dependency_IsComplete, entrypoint_IsComplete}

-- A loop over what is declared comes to a complete container.
record Loop (self : ℕ) (kept : Assembled → Dict ℕ (String × Extension)) (a : Assembled)
    (r : Result BindError Assembled) : Type 0 where
  after : Assembled
  result : r ≡ returned after
  complete : IsComplete self after
  untouched : kept after ≡ kept a

abbrev pub AllUnbound : List (String × Extension) → Type 0
AllUnbound [] = Unit
AllUnbound ((name, p) ∷ rest) = IsUnbound p × AllUnbound rest

abbrev deps : Assembled → Dict ℕ (String × Extension)
deps a = a.dependencies

abbrev ents : Assembled → Dict ℕ (String × Extension)
ents a = a.entrypoints

bind_dependencies-Loop :
    (self : ℕ) (declared : List (String × Extension)) (a : Assembled)
    → AllUnbound declared
    → IsComplete self a
    → Loop self ents a (bind_dependencies declared a)
unfolding bind_dependencies
bind_dependencies-Loop self [] a u c = record {
  after = a;
  result = refl;
  complete = c;
  untouched = refl;
}
bind_dependencies-Loop self ((name, p) ∷ rest) a u c =
    let (e, h, b) = bind-Binds p a.host u.0 c.sound in
    let a' : Assembled = record a {
      host = h;
      dependencies = put (ident e) (name, e) a.dependencies;
      subextensions = update_subextensions (iter_extensions e) a.subextensions;
    } in
    let l = bind_dependencies-Loop self rest a' u.1 (dependency_IsComplete self name a p e h c b) in
    record {
      after = l.after;
      result = ground (arith, b.result, l.result);
      complete = l.complete;
      untouched = l.untouched;
    }

bind_entrypoints-Loop :
    (self : ℕ) (declared : List (String × Extension)) (a : Assembled)
    → AllUnbound declared
    → IsComplete self a
    → Loop self deps a (bind_entrypoints declared a)
unfolding bind_entrypoints
bind_entrypoints-Loop self [] a u c = record {
  after = a;
  result = refl;
  complete = c;
  untouched = refl;
}
bind_entrypoints-Loop self ((name, p) ∷ rest) a u c =
    let (e, h, b) = bind-Binds p a.host u.0 c.sound in
    let a' : Assembled = record a {
      host = h;
      entrypoints = put (ident e) (name, e) a.entrypoints;
      subextensions = update_subextensions (iter_extensions e) a.subextensions;
    } in
    let l = bind_entrypoints-Loop self rest a' u.1 (entrypoint_IsComplete self name a p e h c b) in
    record {
      after = l.after;
      result = ground (arith, b.result, l.result);
      complete = l.complete;
      untouched = l.untouched;
    }

blank-IsComplete : (self next : ℕ) → IsComplete self (blank self next)
unfolding get
blank-IsComplete self next = record {
  sound = record { shared_bound = λ key e. cc; shared_keyed = λ key e. cc };
  same = refl;
  entrypoints_reached = λ i n e g. absurd (cc);
  dependencies_reached = λ i n e g. absurd (cc);
  subextensions_bound = λ i e g. absurd (cc);
}

-- Let no part of what a service declares be bound. Then a container is made from it; all that is in
-- its sets is bound to the container with all of its parts; all the parts are among its
-- sub-extensions.
pub init-IsComplete :
    (self next : ℕ) (dependencies entrypoints : List (String × Extension))
    → AllUnbound dependencies
    → AllUnbound entrypoints
    → (a : Assembled) × (init self next dependencies entrypoints ≡ returned a) × IsComplete self a
unfolding init
init-IsComplete self next dependencies entrypoints u v =
    let d =
      bind_dependencies-Loop self dependencies (blank self next) u (blank-IsComplete self next) in
    let e = bind_entrypoints-Loop self entrypoints d.after v d.complete in
    (e.after, ground (arith, d.result, e.result), e.complete)
