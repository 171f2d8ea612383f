-- ===== src/Serialization.antt =====
-- `setup` of nameko/serialization.py and `import_from_path` of nameko/utils/__init__.py: the
-- serializers of the configuration. The registry is kombu's.
pub mod Ready
pub mod Rounds
mod Examples
use Prim.Native.String.{◌++◌}
use nameko.Prelude.{String, string_eq, Bool, Option, none, some, List, [], ◌∷◌, if◌then◌else◌}
use nameko.Prelude.Dict.{Dict, get, remove}
use nameko.Exceptions.Registry.{Exc}
use nameko.Rpc.Server.{builtin, one_text}
use nameko.Runners.{configuration_error}
use nameko.Action.{Result, returned, raised}
use nameko.Web.Requests.{chain}

-- The options of a serializer: texts, or None.
abbrev pub Kwargs : Type 0
Kwargs = Dict String (Option String)

-- The keys of the configuration that are read, with `none` for a key that is missing.
pub record Config : Type 0 where
  pub serializers : Dict String Kwargs
  pub serializer : Option String
  pub accept : Option (List String)

abbrev pub default_serializer : String
default_serializer = "json"

abbrev pub key_error : String → Exc
key_error key = record {
  type = builtin "KeyError";
  args = one_text key;
  as_text = some ("'" ++ (key ++ "'"));
}

-- `kwargs.pop(key)`
abbrev pub pop : String → Kwargs → Result Exc (Option String × Kwargs)
pop key kwargs = elim (get key kwargs) [
  | none ↦ raised (key_error key)
  | some value ↦ returned (value, remove key kwargs)
]

abbrev pub not_importable : String → Exc
not_importable path =
    let message = "`" ++ (path ++ "` could not be imported") in
    record { type = builtin "ImportError"; args = one_text message; as_text = some message }

abbrev located : {O : Type 0} → String → Option O → Result Exc (Option O)
located path none = raised (not_importable path)
located path (some obj) = returned (some obj)

abbrev pub import_from_path :
    {O : Type 0} → (String → Option O) → Option String → Result Exc (Option O)
import_from_path locate none = returned none
import_from_path locate (some path) = located path (locate path)

abbrev pub unknown_format : String → Exc
unknown_format name =
    configuration_error ("Please register a serializer for \"" ++ (name ++ "\" format"))

-- What stands outside: `pydoc.locate`, and kombu's registry `K` with `register` and the keys of
-- `name_to_type`.
pub record Kombu (O K : Type 0) : Type 0 where
  pub locate : String → Option O
  pub register : String → Option O → Option O → Kwargs → K → Result Exc K
  pub knows : String → K → Bool

module _ {O K : Type 0} (kombu : Kombu O K) where
  open kombu use {locate, register, knows}

  -- A round of the loop over the serializers
  unfoldable pub register_one : String → Kwargs → K → Result Exc K
  unfolding get remove
  register_one name kwargs registry = chain (pop "encoder" kwargs) (λ e.
      chain (import_from_path locate e.0) (λ encoder. chain (pop "decoder" e.1) (λ d.
        chain (import_from_path locate d.0)
          (λ decoder. register name encoder decoder d.1 registry))))

  -- The serializers before one that fails are registered.
  unfoldable pub register_all : Dict String Kwargs → K → Result Exc Unit × K
  unfolding register_one
  register_all [] registry = (returned tt, registry)
  register_all ((name, kwargs) ∷ rest) registry = elim (register_one name kwargs registry) [
    | raised exc ↦ (raised exc, registry)
    | returned more ↦ register_all rest more
  ]

  -- The loop over `[serializer] + accept`
  unfoldable pub check_known : List String → K → Result Exc Unit
  check_known [] registry = returned tt
  check_known (name ∷ names) registry =
      let rest = check_known names registry in
      if knows name registry then rest else raised (unknown_format name)

  abbrev pub serializer_of : Config → String
  serializer_of config = elim config.serializer [
    | none ↦ default_serializer
    | some serializer ↦ serializer
  ]

  abbrev pub accept_of : Config → List String
  accept_of config = elim config.accept [ none ↦ serializer_of config ∷ [] | some accept ↦ accept ]

  abbrev checked : Config → Result Exc Unit × K → Result Exc (String × List String) × K
  checked config (outcome, registry) = (
    chain outcome (λ _.
        chain (check_known (serializer_of config ∷ accept_of config) registry)
          (λ _. returned (serializer_of config, accept_of config))),
    registry,
  )

  unfoldable pub setup : Config → K → Result Exc (String × List String) × K
  unfolding register_all check_known
  setup config registry = checked config (register_all config.serializers registry)
