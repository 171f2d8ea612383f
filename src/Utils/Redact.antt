-- ===== src/Utils/Redact.antt =====
-- `redact` of `get_redacted_args` in nameko/utils/__init__.py, which overwrites sensitive parts of
-- the arguments of a call.
pub mod Paths
use Prim.Native.String.{String}
use package.text.Mathlib.Text.{starts_with}
use nameko.Prelude.{
  ℕ, ℕ_eq, zero, suc, Bool, true, false, not, ◌&&◌, ◌||◌, Option, none, some, List, [], ◌∷◌,
  string_eq, ◌==◌, if◌then◌else◌,
}

-- A part of a path: a name, or an index in brackets.
pub data Key : Type 0 where
  name : String → Key
  index : ℕ → Key

-- Arguments, as trees without shared parts: a sequence is a list, and numbers stand for all that is
-- no text, mapping or sequence.
mutual
  pub data Data : Type 0 where
    number : ℕ → Data
    text : String → Data
    mapping : Fields → Data
    sequence : Items → Data

  pub data Fields : Type 0 where
    empty_mapping : Fields
    field : Key → Data → Fields → Fields

  pub data Items : Type 0 where
    empty_sequence : Items
    item : Data → Items → Items

abbrev pub redacted : Data
redacted = text "********"

abbrev pub same_key : Key → Key → Bool
same_key (name s) (name t) = s == t
same_key (index m) (index n) = m == n
same_key _ _ = false

-- What is found under a key of a mapping, and at an index of a sequence.
abbrev pub find_field : Key → Fields → Option Data
find_field k empty_mapping = none
find_field k (field j d rest) =
    let later = find_field k rest in if same_key j k then some d else later

abbrev pub find_item : ℕ → Items → Option Data
find_item n empty_sequence = none
find_item zero (item d rest) = some d
find_item (suc n) (item d rest) = find_item n rest

-- data[key] = d
unfoldable pub set_field : Key → Data → Fields → Fields
set_field k d empty_mapping = field k d empty_mapping
set_field k d (field j e rest) =
    let later = set_field k d rest in if same_key j k then field j d rest else field j e later

-- an index that is out of range raises IndexError, which is passed over
unfoldable pub set_item : ℕ → Data → Items → Items
set_item n d empty_sequence = empty_sequence
set_item zero d (item e rest) = item d rest
set_item (suc n) d (item e rest) = item e (set_item n d rest)

-- `try: data[key] = REDACTED` / `except (KeyError, IndexError, TypeError): pass`
unfoldable pub overwrite : Key → Data → Data
unfolding set_field set_item
overwrite k (mapping fields) = mapping (set_field k redacted fields)
overwrite (index n) (sequence items) = sequence (set_item n redacted items)
overwrite k d = d

-- A text that stands somewhere in another.
abbrev pub occurs : String → String → Bool
occurs needle String.[] = starts_with String.[] needle
occurs needle (String.◌∷◌ c rest) =
    let later = occurs needle rest in starts_with (String.◌∷◌ c rest) needle || later

-- `key in data` for a sequence looks at the items, not at the indices.
abbrev is_item : Key → Data → Bool
is_item (name s) (text t) = s == t
is_item (index m) (number n) = m == n
is_item _ _ = false

abbrev pub holds : Key → Items → Bool
holds k empty_sequence = false
holds k (item d rest) = is_item k d || holds k rest

-- What `key in data`, and `data[key]` if it is true, give: nothing to do, an exception, or a part.
pub data Part : Type 0 where
  nothing broken : Part
  part : Data → Part

abbrev some_part : Option Data → Part
some_part none = broken
some_part (some d) = part d

abbrev item_at : Key → Items → Part
item_at (name s) items = broken
item_at (index n) items = some_part (find_item n items)

abbrev pub field_at : Option Data → Part
field_at none = nothing
field_at (some d) = part d

unfoldable pub look : Key → Data → Part
look k (mapping fields) = field_at (find_field k fields)
look k (sequence items) = if holds k items then item_at k items else nothing
look (name s) (text t) = if occurs s t then broken else nothing
look (index n) (text t) = broken
look k (number n) = broken

-- The part is mutated in place.
abbrev pub put_back : Key → Data → Data → Data
put_back k (mapping fields) d = mapping (set_field k d fields)
put_back (index n) (sequence items) d = sequence (set_item n d items)
put_back k other d = other

-- `redact(data, keys)` for keys that begin with `k`; none if it raises.
abbrev pub put_back_if : Key → Data → Option Data → Option Data
put_back_if k d none = none
put_back_if k d (some e) = some (put_back k d e)

unfoldable pub redact : Data → Key → List Key → Option Data
unfolding overwrite look
redact d k [] = some (overwrite k d)
redact d k (j ∷ rest) = elim (look k d) [
  | nothing ↦ some d
  | broken ↦ none
  | part e ↦ put_back_if k d (redact e j rest)
]

-- The loop over the sensitive arguments, on the dict of the call's arguments; each argument has a
-- first key, and is passed over if no argument of the call has that name.
abbrev one : Fields → Key → List Key → Option Data → Option Data
one callargs k keys none = some (mapping callargs)
one callargs k keys (some _) = redact (mapping callargs) k keys

abbrev fields_of : Data → Fields
fields_of (mapping fields) = fields
fields_of _ = empty_mapping

unfoldable pub redact_all : Fields → List (Key × List Key) → Option Fields
unfolding redact
redact_all callargs [] = some callargs
redact_all callargs ((k, keys) ∷ rest) = elim (one callargs k keys (find_field k callargs)) [
  | none ↦ none
  | some d ↦ redact_all (fields_of d) rest
]
