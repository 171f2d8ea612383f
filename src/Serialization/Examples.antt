-- ===== src/Serialization/Examples.antt =====
-- The theorem about nameko/serialization.py at a concrete configuration.
use nameko.Prelude.{String, string_eq, ◌≡◌, some, List, [], ◌∷◌, true, refl, subst, arith, ==-refl}
use nameko.Prelude.Set.{contains}
use nameko.Action.{returned}
use nameko.Serialization.{Config, Kombu, setup}
use nameko.Serialization.Ready.{Registers, Settles, setup-Settles}

-- A registry is the list of the names in it.
abbrev registry : Kombu Unit (List String)
registry = record {
  locate = λ path. some tt;
  register = λ name encoder decoder kwargs names. returned (name ∷ names);
  knows = contains;
}

registry-Registers : Registers registry
unfolding contains
registry-Registers = record {
  known = λ name encoder decoder kwargs k k' e.
      let it : name ∷ k ≡ k' = ground (arith, e) in
      subst (λ l. contains name l ≡ true) it (ground (arith, ==-refl name));
  kept = λ name other encoder decoder kwargs k k' e h.
      let it : name ∷ k ≡ k' = ground (arith, e) in
      subst (λ l. contains other l ≡ true) it (ground (arith, h));
}

abbrev config : Config
config = record {
  serializers = ("upper", ("encoder", some "up.dumps") ∷ ("decoder", some "up.loads") ∷ []) ∷ [];
  serializer = some "upper";
  accept = some ("json" ∷ "upper" ∷ []);
}

setup-Settles_example :
    Settles registry config
      ("json" ∷ [])
      (setup registry config ("json" ∷ [])).1
      (setup registry config ("json" ∷ [])).0
setup-Settles_example = setup-Settles registry registry-Registers config ("json" ∷ [])

sets_up :
    setup registry config ("json" ∷ [])
    ≡ (returned ("upper", "json" ∷ "upper" ∷ []), "upper" ∷ "json" ∷ [])
unfolding setup contains
sets_up = refl
