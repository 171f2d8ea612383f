-- ===== src/Exceptions/Registry.antt =====
-- `serialize`, `deserialize` and the registry of deserializable classes (nameko/exceptions.py).
pub mod RoundTrip
pub mod Written
use nameko.Prelude.{String, Option, none, some, List, [], string_eq}
use nameko.Prelude.Dict.{Dict, get, put}
use nameko.Prelude.Text.{join_dot}
use nameko.Action.{Result, returned, raised}
use nameko.Exceptions.{
  Value, text, Values, Outcome, ok, ◌>>=◌, stringify, safe_values, safe_for_serialization, other,
}

-- A class of exceptions: where it is defined, and its name.
pub record ExcType : Type 0 where
  pub module_name : String
  pub name : String

-- An exception: its class, its `args`, and its text, or none if `six.text_type` raises.
pub record Exc : Type 0 where
  pub type : ExcType
  pub args : Values
  pub as_text : Option String

unfoldable pub get_module_path : ExcType → String
get_module_path t = join_dot t.module_name t.name

-- The dict that describes an exception. A reply from elsewhere may lack any of its keys.
pub record Serialized : Type 0 where
  pub exc_type : Option String
  pub exc_path : Option String
  pub exc_args : Option Values
  pub value : Option Value

unfoldable pub serialize : Exc → Outcome Serialized
serialize exc = do
  args ← safe_values exc.args
  value ← safe_for_serialization (other exc.as_text)
  ok (record {
    exc_type = some exc.type.name;
    exc_path = some (get_module_path exc.type);
    exc_args = some args;
    value = some value;
  })

-- What the caller of `deserialize` raises: the instance or RemoteError that it returns, or what the
-- constructor of the class raised in it.
pub data Remote : Type 0 where
  instance_of : Exc → Remote
  constructor_raised : Exc → Remote
  remote_error : Option String → Option Value → Remote

-- The registry holds, under its path, what calling a class on the arguments makes or raises.
abbrev pub Registry : Type 0
Registry = Dict String (Values → Result Exc Exc)

abbrev pub made : Result Exc Exc → Remote
made (returned exc) = instance_of exc
made (raised exc) = constructor_raised exc

abbrev args_or_empty : Option Values → Values
args_or_empty (some l) = l
args_or_empty none = Values.nil

abbrev pub find_class : Registry → Option String → Option (Values → Result Exc Exc)
find_class registry none = none
find_class registry (some key) = get key registry

unfoldable pub deserialize : Registry → Serialized → Remote
deserialize registry entry = elim (find_class registry entry.exc_path) [
  | some make ↦ made (make (args_or_empty entry.exc_args))
  | none ↦ remote_error entry.exc_type entry.value
]

-- The decorator
unfoldable pub deserialize_to_instance : ExcType → (Values → Result Exc Exc) → Registry → Registry
deserialize_to_instance t make registry = put (get_module_path t) make registry

-- A class that keeps the constructor of `Exception`, as those that nameko registers do.
-- `render` is `str` of the new instance.
unfoldable pub plain_class : (Values → Option String) → ExcType → Values → Result Exc Exc
plain_class render t args = returned (record { type = t; args = args; as_text = render args })

abbrev pub malformed_request : ExcType
malformed_request = record { module_name = "nameko.exceptions"; name = "MalformedRequest" }

abbrev pub method_not_found : ExcType
method_not_found = record { module_name = "nameko.exceptions"; name = "MethodNotFound" }

abbrev pub incorrect_signature : ExcType
incorrect_signature = record { module_name = "nameko.exceptions"; name = "IncorrectSignature" }

-- The registry once the module is loaded
unfoldable pub nameko_registry : (Values → Option String) → Registry
unfolding deserialize_to_instance
nameko_registry render =
    deserialize_to_instance incorrect_signature (plain_class render incorrect_signature) (
      deserialize_to_instance method_not_found (plain_class render method_not_found)
        (deserialize_to_instance malformed_request (plain_class render malformed_request) []))
