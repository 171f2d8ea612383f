-- ===== src/Exceptions/Registry/RoundTrip.antt =====
-- An exception through a reply: what `deserialize` makes of what `serialize` wrote
-- (nameko/exceptions.py).
use nameko.Prelude.{
  String, ◌≡◌, refl, Option, none, some, true, arith, string_eq, ==-refl, Bool, false,
}
use nameko.Prelude.Dict.{get, get-put}
use nameko.Exceptions.{
  text, mapping, iterable, other, Values, nil, cons, ok, stringify, safe_values,
  safe_for_serialization,
}
use nameko.Exceptions.Safe.{JsonValues, plain_values, safe_values-Settles, ok_of_Settles}
use nameko.Action.{Result}
use nameko.Exceptions.Registry.Written.{AreWritten, safe_values-AreWritten}
use nameko.Exceptions.Registry.{
  Exc, Serialized, get_module_path, serialize, Remote, instance_of, made, remote_error, Registry,
  deserialize, deserialize_to_instance, plain_class,
}

-- What the caller gets for arguments: what a registered class makes of them, or raises, else a
-- RemoteError with the name and the text.
abbrev pub seen_by_caller : Exc → Values → Option (Values → Result Exc Exc) → Remote
seen_by_caller exc args (some make) = made (make args)
seen_by_caller exc args none = remote_error (some exc.type.name) (some (stringify exc.as_text))

-- An exception with plain keys in its arguments is written, with one argument for each of its own:
-- texts are kept, iterables and dicts are lists and dicts of what their entries become, and others
-- are their text or a fallback for it; all of them are ready for JSON. The caller gets what the class makes of these arguments, if it
-- is registered under its path, and else a RemoteError with its name and text.
pub deserialize-serialize :
    (registry : Registry) (exc : Exc)
    → plain_values exc.args ≡ true
    → (args : Values) × (entry : Serialized) × JsonValues args
      × AreWritten exc.args args
      × (serialize exc ≡ ok entry)
      × (deserialize registry entry
          ≡ seen_by_caller exc args (get (get_module_path exc.type) registry))
unfolding serialize deserialize safe_for_serialization
deserialize-serialize registry exc plain =
    let settled = rw plain at (safe_values-Settles exc.args) in
    let (args, done, ready) = ok_of_Settles JsonValues (safe_values exc.args) settled in
    (
      args,
      record {
        exc_type = some exc.type.name;
        exc_path = some (get_module_path exc.type);
        exc_args = some args;
        value = some (stringify exc.as_text);
      },
      ready,
      safe_values-AreWritten exc.args args done,
      rw done refl,
      found args (get (get_module_path exc.type) registry),
    )
  where
    found :
        (args : Values) (c : Option (Values → Result Exc Exc))
        → (elim c [
          | some make ↦ made (make args)
          | none ↦ remote_error (some exc.type.name) (some (stringify exc.as_text))
        ])
          ≡ seen_by_caller exc args c
    found args (some make) = refl
    found args none = refl

-- Arguments that are texts, as those of the exceptions that nameko itself raises are.
abbrev pub all_texts : Values → Bool
all_texts nil = true
all_texts (cons (text s) rest) = all_texts rest
all_texts (cons v rest) = false

safe_values_texts : (l : Values) → all_texts l ≡ true → safe_values l ≡ ok l
unfolding safe_for_serialization
safe_values_texts nil h = refl
safe_values_texts (cons (text s) rest) h = rw (safe_values_texts rest h) refl
safe_values_texts (cons (mapping m) rest) h = cc
safe_values_texts (cons (iterable m) rest) h = cc
safe_values_texts (cons (other t) rest) h = cc

-- An exception with text arguments, of a class that is registered with a plain constructor,
-- is written, and is read back as an instance of its class with its arguments.
pub deserialize-serialize_registered :
    (render : Values → Option String) (registry : Registry) (exc : Exc)
    → all_texts exc.args ≡ true
    → (entry : Serialized) × (serialize exc ≡ ok entry)
      × (deserialize (deserialize_to_instance exc.type (plain_class render exc.type) registry) entry
          ≡ instance_of (record { type = exc.type; args = exc.args; as_text = render exc.args }))
unfolding serialize deserialize deserialize_to_instance plain_class safe_for_serialization
deserialize-serialize_registered render registry exc texts = (
  record {
    exc_type = some exc.type.name;
    exc_path = some (get_module_path exc.type);
    exc_args = some exc.args;
    value = some (stringify exc.as_text);
  },
  rw (safe_values_texts exc.args texts) refl,
  ground (
    arith,
    get-put (get_module_path exc.type) (get_module_path exc.type) (plain_class render exc.type)
        registry,
    ==-refl (get_module_path exc.type),
  ),
)
