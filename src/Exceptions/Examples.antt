-- ===== src/Exceptions/Examples.antt =====
-- The theorems about nameko/exceptions.py at concrete values and exceptions.
use nameko.Prelude.{String, ◌≡◌, refl, true, Option, none, some, string_eq}
use nameko.Prelude.Dict.{get}
use nameko.Exceptions.{
  Value, text, mapping, iterable, other, Values, nil, cons, end, item, ok, safe_for_serialization,
  put_item,
}
use nameko.Exceptions.Safe.{
  JsonReady, JsonValues, Settles, has_plain_keys, plain_values, safe_for_serialization-Settles,
}
use nameko.Exceptions.Registry.{
  Exc, Serialized, get_module_path, serialize, deserialize, nameko_registry, method_not_found,
}
use nameko.Exceptions.Registry.Written.{AreWritten}
use nameko.Exceptions.Registry.RoundTrip.{seen_by_caller, deserialize-serialize}

-- {1: "a", "1": object()}, whose two keys become one
abbrev collision : Value
collision = mapping (item (other (some "1")) (text "a") (item (text "1") (other none) end))

collapsed :
    safe_for_serialization collision
    ≡ ok (mapping (item (text "1") (text "[__unicode__ failed]") end))
unfolding safe_for_serialization put_item
collapsed = refl

-- {("a",): "b"}
abbrev tuple_key : Value
tuple_key = mapping (item (iterable (cons (text "a") nil)) (text "b") end)

safe_for_serialization-Settles_example :
    Settles JsonReady (safe_for_serialization tuple_key) (has_plain_keys tuple_key)
safe_for_serialization-Settles_example = safe_for_serialization-Settles tuple_key

abbrev render : Values → Option String
render args = none

abbrev missing : Exc
missing = record { type = method_not_found; args = cons (text "spam") nil; as_text = some "spam" }

missing_plain : plain_values missing.args ≡ true
unfolding has_plain_keys
missing_plain = refl

deserialize-serialize_example :
    (args : Values) × (entry : Serialized) × JsonValues args
    × AreWritten missing.args args
    × (serialize missing ≡ ok entry)
    × (deserialize (nameko_registry render) entry
        ≡ seen_by_caller missing args (get (get_module_path missing.type) (nameko_registry render)))
deserialize-serialize_example = deserialize-serialize (nameko_registry render) missing missing_plain
