-- ===== src/Exceptions/Safe.antt =====
-- `safe_for_serialization` of nameko/exceptions.py: its results, and the values on which it raises.
use nameko.Prelude.{
  String, ◌≡◌, refl, Bool, true, false, ◌&&◌, Option, none, some, arith, string_eq, ◌==◌,
  Bool-cases, inl, inr,
}
use nameko.Exceptions.{
  Value, text, mapping, iterable, other, Values, nil, cons, Items, end, item, Outcome, ok,
  unhashable, ◌>>=◌, hashed, put_item, failed_text, stringify, safe_for_serialization, safe_values,
  safe_items,
}

-- A value that `json.dumps` accepts: texts, lists of such values, dicts from texts to such values.
unfoldable mutual
  pub JsonReady : Value → Type 0
  JsonReady (text s) = Unit
  JsonReady (mapping items) = JsonItems items
  JsonReady (iterable values) = JsonValues values
  JsonReady (other t) = ⊥

  pub JsonValues : Values → Type 0
  JsonValues nil = Unit
  JsonValues (cons v rest) = JsonReady v × JsonValues rest

  pub JsonItems : Items → Type 0
  JsonItems end = Unit
  JsonItems (item (text k) v rest) = JsonReady v × JsonItems rest
  JsonItems (item k v rest) = ⊥

-- A key that becomes a text.
abbrev is_plain_key : Value → Bool
is_plain_key (text s) = true
is_plain_key (other t) = true
is_plain_key _ = false

unfoldable mutual
  pub has_plain_keys : Value → Bool
  has_plain_keys (mapping items) = plain_items items
  has_plain_keys (iterable values) = plain_values values
  has_plain_keys (text s) = true
  has_plain_keys (other t) = true

  pub plain_values : Values → Bool
  plain_values nil = true
  plain_values (cons v rest) = has_plain_keys v && plain_values rest

  pub plain_items : Items → Bool
  plain_items end = true
  plain_items (item k v rest) = is_plain_key k && (has_plain_keys v && plain_items rest)

-- What an outcome must be for a value whose keys are plain, or are not.
abbrev pub Settles : {A : Type 0} → (A → Type 0) → Outcome A → Bool → Type 0
Settles P (ok a) true = P a
Settles P unhashable false = Unit
Settles P _ _ = ⊥

put_item-JsonItems :
    (k : String) (v : Value) (made : Items)
    → JsonReady v
    → JsonItems made
    → JsonItems (put_item k v made)
unfolding put_item JsonReady
put_item-JsonItems k v end hv h = (hv, tt)
put_item-JsonItems k v (item (text j) w rest) hv h = elim (Bool-cases (j == k)) [
  | inl same ↦ rw same (hv, h.1)
  | inr differs ↦ rw differs (h.0, put_item-JsonItems k v rest hv h.1)
]
put_item-JsonItems k v (item (mapping m) w rest) hv h = elim h [ ]
put_item-JsonItems k v (item (iterable m) w rest) hv h = elim h [ ]
put_item-JsonItems k v (item (other t) w rest) hv h = elim h [ ]

module _ {A B : Type 0} (P : A → Type 0) (Q : B → Type 0) where
  -- a step of the comprehension, followed by the rest of it
  bind-Settles :
      (m : Outcome A) (f : A → Outcome B) (b c : Bool)
      → Settles P m b
      → ((a : A) → P a → Settles Q (f a) c)
      → Settles Q (m >>= f) (b && c)
  bind-Settles (ok a) f true c h k = k a h
  bind-Settles (ok a) f false c h k = elim h [ ]
  bind-Settles unhashable f false c h k = tt
  bind-Settles unhashable f true c h k = elim h [ ]

module _ {A B : Type 0} (P : A → Type 0) (Q : B → Type 0) where
  map-Settles :
      (m : Outcome A) (g : A → B) (b : Bool)
      → Settles P m b
      → ((a : A) → P a → Q (g a))
      → Settles Q (do a ← m; ok (g a)) b
  map-Settles (ok a) g true h k = k a h
  map-Settles (ok a) g false h k = elim h [ ]
  map-Settles unhashable g false h k = tt
  map-Settles unhashable g true h k = elim h [ ]

-- A dict or a list as a key fails, whatever the value and the rest of the dict do.
mapping_key :
    (m : Outcome Items) (n : Outcome Value) (g : Value → String → Outcome Items)
    → (do key ← (do i ← m; ok (mapping i)); value ← n; hash ← hashed key; g value hash) ≡ unhashable
mapping_key m n g = ground arith

iterable_key :
    (m : Outcome Values) (n : Outcome Value) (g : Value → String → Outcome Items)
    → (do key ← (do i ← m; ok (iterable i)); value ← n; hash ← hashed key; g value hash)
      ≡ unhashable
iterable_key m n g = ground arith

stringify-JsonReady : (t : Option String) → (s : String) × (stringify t ≡ text s)
stringify-JsonReady none = (failed_text, refl)
stringify-JsonReady (some s) = (s, refl)

mutual
  unfolding safe_for_serialization has_plain_keys JsonReady

  safe-Settles : (v : Value) → Settles JsonReady (safe_for_serialization v) (has_plain_keys v)
  safe-Settles (text s) = tt
  safe-Settles (other none) = tt
  safe-Settles (other (some s)) = tt
  safe-Settles (mapping items) =
      map-Settles JsonItems JsonReady (safe_items end items) mapping (plain_items items)
        (safe_items-Settles end items tt) (λ a ha. ha)
  safe-Settles (iterable values) =
      map-Settles JsonValues JsonReady (safe_values values) iterable (plain_values values)
        (safe_values-Settles values) (λ a ha. ha)

  pub safe_values-Settles : (l : Values) → Settles JsonValues (safe_values l) (plain_values l)
  safe_values-Settles nil = tt
  safe_values-Settles (cons v rest) =
      bind-Settles JsonReady JsonValues (safe_for_serialization v) _ (has_plain_keys v)
        (plain_values rest) (safe-Settles v)
        (λ a ha.
          map-Settles JsonValues JsonValues (safe_values rest) (cons a) (plain_values rest)
            (safe_values-Settles rest) (λ r hr. (ha, hr)))

  safe_items-Settles :
      (made l : Items) → JsonItems made → Settles JsonItems (safe_items made l) (plain_items l)
  safe_items-Settles made end h = h
  safe_items-Settles made (item (text s) v rest) h =
      bind-Settles JsonReady JsonItems (safe_for_serialization v) _ (has_plain_keys v)
        (plain_items rest) (safe-Settles v)
        (λ a ha. safe_items-Settles _ rest (put_item-JsonItems s a made ha h))
  safe_items-Settles made (item (other none) v rest) h =
      bind-Settles JsonReady JsonItems (safe_for_serialization v) _ (has_plain_keys v)
        (plain_items rest) (safe-Settles v)
        (λ a ha. safe_items-Settles _ rest (put_item-JsonItems failed_text a made ha h))
  safe_items-Settles made (item (other (some s)) v rest) h =
      bind-Settles JsonReady JsonItems (safe_for_serialization v) _ (has_plain_keys v)
        (plain_items rest) (safe-Settles v)
        (λ a ha. safe_items-Settles _ rest (put_item-JsonItems s a made ha h))
  safe_items-Settles made (item (mapping m) v rest) h =
      rw
        (mapping_key (safe_items end m) (safe_for_serialization v)
          (λ value hash. safe_items (put_item hash value made) rest))
        tt
  safe_items-Settles made (item (iterable m) v rest) h =
      rw
        (iterable_key (safe_values m) (safe_for_serialization v)
          (λ value hash. safe_items (put_item hash value made) rest))
        tt

-- `safe_for_serialization` returns a value that can be written as JSON, or raises TypeError; it
-- raises on exactly the values with a dict that has a key other than a text or a value that
-- becomes one.
pub safe_for_serialization-Settles :
    (v : Value) → Settles JsonReady (safe_for_serialization v) (has_plain_keys v)
safe_for_serialization-Settles v = safe-Settles v

-- The outcomes that a settled value allows.
pub ok_of_Settles :
    {A : Type 0} (P : A → Type 0) (m : Outcome A) → Settles P m true → (a : A) × (m ≡ ok a) × P a
ok_of_Settles P (ok a) h = (a, refl, h)
ok_of_Settles P unhashable h = elim h [ ]

pub unhashable_of_Settles :
    {A : Type 0} (P : A → Type 0) (m : Outcome A) → Settles P m false → m ≡ unhashable
unhashable_of_Settles P unhashable h = refl
unhashable_of_Settles P (ok a) h = elim h [ ]
