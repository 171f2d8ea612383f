-- ===== src/Utils/Redact/Paths.antt =====
-- What redaction does to the part of the arguments that a path names, and to the others
-- (nameko/utils/__init__.py).
use nameko.Prelude.{
  ℕ, ℕ_eq, ◌≡◌, ◌↔◌, Bool, true, false, not, Option, none, some, List, [], ◌∷◌, string_eq,
  if◌then◌else◌, arith, refl, inl, inr, Bool-cases, Option-cases,
}
use nameko.Utils.Redact.{
  holds, Key, name, index, Data, number, text, mapping, sequence, Fields, empty_mapping, field,
  Items, redacted, same_key, find_field, set_field, overwrite, look, redact,
}

-- Following a path through mappings only.
abbrev pub find_in : Data → Key → Option Data
find_in (mapping fields) k = find_field k fields
find_in _ k = none

abbrev pub follow : Data → Key → List Key → Option Data
follow d k [] = find_in d k
follow d k (j ∷ rest) = elim (find_in d k) [ none ↦ none | some e ↦ follow e j rest ]

same_key_iff : (j k : Key) → (same_key j k ≡ true) ↔ (j ≡ k)
same_key_iff (name s) (name t) = ground (arith, string_eq.equal_iff s t)
same_key_iff (index m) (index n) = ground (arith, ℕ_eq.equal_iff m n)
same_key_iff (name s) (index n) = ground arith
same_key_iff (index m) (name t) = ground arith

find_field-set_field :
    (k j : Key) (d : Data) (fields : Fields)
    → find_field j (set_field k d fields) ≡ (if same_key k j then some d else find_field j fields)
unfolding set_field
find_field-set_field k j d empty_mapping = refl
find_field-set_field k j d (field i e rest) =
    ground
      (arith, same_key_iff k j, same_key_iff i k, same_key_iff i j, find_field-set_field k j d rest)

-- Two paths that part before either of them ends.
abbrev pub part_ways : Key → List Key → Key → List Key → Bool
part_ways k [] j js = not (same_key k j)
part_ways k (i ∷ is) j [] = not (same_key k j)
part_ways k (i ∷ is) j (l ∷ ls) =
    let later = part_ways i is l ls in if same_key k j then later else true

follow_same :
    (f g : Fields) (j : Key) (js : List Key)
    → find_field j f ≡ find_field j g
    → follow (mapping f) j js ≡ follow (mapping g) j js
follow_same f g j [] e = e
follow_same f g j (i ∷ is) e = ground (arith, e)

-- What redaction makes of data: the part at the path is overwritten, the part at another path is kept.
abbrev pub IsRedacted : Data → Key → List Key → Data → Type 0
IsRedacted d k rest d' = (redact d k rest ≡ some d') × (follow d' k rest ≡ some redacted)

abbrev Kept : Data → Key → List Key → Data → Type 0
Kept d k rest d' =
    (j : Key) (js : List Key) → part_ways k rest j js ≡ true → follow d' j js ≡ follow d j js

module _ (fields : Fields) (k : Key) where
  redact_field : IsRedacted (mapping fields) k [] (mapping (set_field k redacted fields))
  unfolding redact overwrite
  redact_field = (refl, ground (arith, find_field-set_field k k redacted fields, same_key_iff k k))

  field-Kept : Kept (mapping fields) k [] (mapping (set_field k redacted fields))
  field-Kept j js apart =
      follow_same (set_field k redacted fields) fields j js
        (ground (arith, find_field-set_field k j redacted fields, apart))

  module _ (i : Key) (rest : List Key) (e e' : Data) (found : find_field k fields ≡ some e) where
    redact_nested :
        IsRedacted e i rest e'
        → IsRedacted (mapping fields) k (i ∷ rest) (mapping (set_field k e' fields))
    unfolding redact look
    redact_nested h = (
      ground (arith, found, h.0),
      ground (arith, find_field-set_field k k e' fields, same_key_iff k k, h.1),
    )

    inside-Kept :
        Kept e i rest e'
        → (j : Key) (js : List Key) → same_key k j ≡ true
        → part_ways k (i ∷ rest) j js ≡ true
        → follow (mapping (set_field k e' fields)) j js ≡ follow (mapping fields) j js
    inside-Kept h j [] same apart = absurd (ground (arith, same, apart))
    inside-Kept h j (l ∷ ls) same apart = ground (
      arith,
      same,
      found,
      same_key_iff k j,
      find_field-set_field k j e' fields,
      h l ls (ground (arith, same, apart)),
    )

    nested-Kept :
        Kept e i rest e' → Kept (mapping fields) k (i ∷ rest) (mapping (set_field k e' fields))
    nested-Kept h j js apart = elim (Bool-cases (same_key k j)) [
      | inl same ↦ inside-Kept h j js same apart
      | inr other ↦
          follow_same (set_field k e' fields) fields j js
            (ground (arith, find_field-set_field k j e' fields, other))
    ]

redact-Kept :
    (d : Data) (k : Key) (rest : List Key) (v : Data)
    → follow d k rest ≡ some v
    → (d' : Data) × IsRedacted d k rest d' × Kept d k rest d'
redact-Kept (number n) k [] v e = absurd (cc)
redact-Kept (text s) k [] v e = absurd (cc)
redact-Kept (sequence items) k [] v e = absurd (cc)
redact-Kept (mapping fields) k [] v e =
    (mapping (set_field k redacted fields), redact_field fields k, field-Kept fields k)
redact-Kept (number n) k (i ∷ rest) v e = absurd (cc)
redact-Kept (text s) k (i ∷ rest) v e = absurd (cc)
redact-Kept (sequence items) k (i ∷ rest) v e = absurd (cc)
redact-Kept (mapping fields) k (i ∷ rest) v e = elim (Option-cases (find_field k fields)) [
  | inl absent ↦ absurd (ground (arith, absent, e))
  | inr (inner, found) ↦
      let (e', done, kept) = redact-Kept inner i rest v (ground (arith, found, e)) in
      (
        mapping (set_field k e' fields),
        redact_nested fields k i rest inner e' found done,
        nested-Kept fields k i rest inner e' found kept,
      )
]

-- If mappings lead along a path to a part of the arguments, redaction does not raise, that part is
-- overwritten, and what another path leads to, that parts from this one before either ends, is kept.
pub redact-IsRedacted :
    (d : Data) (k : Key) (rest : List Key) (v : Data) (j : Key) (js : List Key)
    → follow d k rest ≡ some v
    → part_ways k rest j js ≡ true
    → (d' : Data) × (redact d k rest ≡ some d')
      × (follow d' k rest ≡ some redacted)
      × (follow d' j js ≡ follow d j js)
redact-IsRedacted d k rest v j js e apart =
    let (d', done, kept) = redact-Kept d k rest v e in (d', done.0, done.1, kept j js apart)

-- A path that goes on for two keys or more past an argument that is neither a text, a mapping nor a
-- sequence makes redaction raise.
pub redact-raises :
    (fields : Fields) (k i l : Key) (rest : List Key) (n : ℕ)
    → find_field k fields ≡ some (number n)
    → redact (mapping fields) k (i ∷ l ∷ rest) ≡ none
unfolding redact look
redact-raises fields k i l rest n found = ground (arith, found)

-- A path that goes on past an index of a sequence leaves the sequence as it is, unless the index is
-- also one of the items.
pub redact-past_index :
    (fields : Fields) (k l : Key) (rest : List Key) (n : ℕ) (items : Items)
    → find_field k fields ≡ some (sequence items)
    → holds (index n) items ≡ false
    → (d' : Data) × (redact (mapping fields) k (index n ∷ l ∷ rest) ≡ some d')
      × (find_in d' k ≡ some (sequence items))
unfolding redact look
redact-past_index fields k l rest n items found absent = (
  mapping (set_field k (sequence items) fields),
  ground (arith, found, absent),
  ground (arith, find_field-set_field k k (sequence items) fields, same_key_iff k k),
)
