-- ===== src/Exceptions.antt =====
-- nameko/exceptions.py: how an exception is put into the reply to a remote call, and taken out of it.
mod Examples
pub mod Safe
pub mod Registry
use nameko.Prelude.{
  ℕ, String, ◌≡◌, Bool, true, false, Option, none, some, List, [], ◌∷◌, string_eq, Eq, ◌==◌,
  if◌then◌else◌,
}

-- A Python value as `safe_for_serialization` looks at it. `other` holds what `six.text_type`
-- returns for the value, or none if that raises.
mutual
  pub data Value : Type 0 where
    text : String → Value
    mapping : Items → Value
    iterable : Values → Value
    other : Option String → Value

  pub data Values : Type 0 where
    nil : Values
    cons : Value → Values → Values

  pub data Items : Type 0 where
    end : Items
    item : Value → Value → Items → Items

-- The outcome of code that may raise the TypeError "unhashable type".
pub data Outcome {ℓ} (A : Type ℓ) : Type ℓ where
  ok : A → Outcome A
  unhashable : Outcome A

infixl 5 ◌>>=◌
abbrev pub ◌>>=◌ {ℓ κ} : {A : Type ℓ} {B : Type κ} → Outcome A → (A → Outcome B) → Outcome B
ok a >>= f = f a
unhashable >>= f = unhashable

abbrev pub failed_text : String
failed_text = "[__unicode__ failed]"

abbrev pub stringify : Option String → Value
stringify (some s) = text s
stringify none = text failed_text

-- A key of the dict that the comprehension builds: texts can be hashed, lists and dicts cannot.
abbrev pub hashed : Value → Outcome String
hashed (text s) = ok s
hashed _ = unhashable

-- d[key] = value on the items of a dict whose keys are texts
unfoldable pub put_item : String → Value → Items → Items
put_item k v end = item (text k) v end
put_item k v (item (text j) w rest) =
    let later = put_item k v rest in if j == k then item (text j) v rest else item (text j) w later
put_item k v (item j w rest) = item j w (put_item k v rest)

-- The three cases of `safe_for_serialization`, with its loops over iterables and items. The items
-- are put into the new dict one by one, so the last of several equal keys gives the value.
unfoldable mutual
  pub safe_for_serialization : Value → Outcome Value
  safe_for_serialization (text s) = ok (text s)
  safe_for_serialization (mapping items) = do safe ← safe_items end items; ok (mapping safe)
  safe_for_serialization (iterable values) = do safe ← safe_values values; ok (iterable safe)
  safe_for_serialization (other t) = ok (stringify t)

  pub safe_values : Values → Outcome Values
  safe_values nil = ok nil
  safe_values (cons v rest) = do
    first ← safe_for_serialization v
    others ← safe_values rest
    ok (cons first others)

  pub safe_items : Items → Items → Outcome Items
  safe_items made end = ok made
  safe_items made (item k v rest) = do
    key ← safe_for_serialization k
    value ← safe_for_serialization v
    hash ← hashed key
    safe_items (put_item hash value made) rest
