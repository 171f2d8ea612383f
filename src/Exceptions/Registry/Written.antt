-- ===== src/Exceptions/Registry/Written.antt =====
-- What a value becomes when it is made safe for JSON (nameko/exceptions.py).
use nameko.Prelude.{
  String, string_eq, ◌==◌, ◌≡◌, Bool, false, Option, none, some, inl, inr, Bool-cases, arith, refl,
  ap, ◌∙◌, subst, if◌then◌else◌,
}
use nameko.Exceptions.{
  Value, text, mapping, iterable, other, Values, nil, cons, Items, end, item, Outcome, ok, ◌>>=◌,
  unhashable, hashed, put_item, safe_for_serialization, safe_values, safe_items,
}

-- The key that an item is written under, for a key of the source: a text, or the text of another
-- object.
abbrev pub key_text : Value → Option String
key_text (text s) = some s
key_text (other (some s)) = some s
key_text (other none) = some "[__unicode__ failed]"
key_text (iterable l) = none
key_text (mapping items) = none

abbrev pub is_key : String → Option String → Bool
is_key k none = false
is_key k (some s) = s == k

abbrev pub or_before : Option Value → Option Value → Option Value
or_before (some v) before = some v
or_before none before = before

-- The last value under a key, in a dict as it is and as it is written.
abbrev pub last_under : String → Items → Option Value
last_under k end = none
last_under k (item key v rest) =
    or_before (last_under k rest) (if is_key k (key_text key) then some v else none)

abbrev pub found_under : String → Items → Option Value
found_under k end = none
found_under k (item (text s) v rest) = if s == k then some v else found_under k rest
found_under k (item _ v rest) = found_under k rest

mutual
  pub data IsWritten : Value → Value → Type 0 where
    a_text : (s : String) → IsWritten (text s) (text s)
    its_text : (s : String) → IsWritten (other (some s)) (text s)
    no_text : IsWritten (other none) (text "[__unicode__ failed]")
    a_list : (l m : Values) → AreWritten l m → IsWritten (iterable l) (iterable m)
    a_dict :
        (items made : Items)
        → ((k : String) → EntryWritten (last_under k items) (found_under k made))
        → IsWritten (mapping items) (mapping made)

  pub data AreWritten : Values → Values → Type 0 where
    no_more : AreWritten nil nil
    one_more :
        (v w : Value) (l m : Values)
        → IsWritten v w
        → AreWritten l m
        → AreWritten (cons v l) (cons w m)

  pub data EntryWritten : Option Value → Option Value → Type 0 where
    no_entry : EntryWritten none none
    an_entry : (v w : Value) → IsWritten v w → EntryWritten (some v) (some w)

found_under-put_item :
    (k j : String) (v : Value) (made : Items)
    → found_under j (put_item k v made) ≡ (if k == j then some v else found_under j made)
unfolding put_item
found_under-put_item k j v end = refl
found_under-put_item k j v (item (text s) w rest) = ground (
  arith,
  string_eq.equal_iff k j,
  string_eq.equal_iff s k,
  string_eq.equal_iff s j,
  found_under-put_item k j v rest,
)
found_under-put_item k j v (item (mapping m) w rest) = found_under-put_item k j v rest
found_under-put_item k j v (item (iterable m) w rest) = found_under-put_item k j v rest
found_under-put_item k j v (item (other m) w rest) = found_under-put_item k j v rest

-- The steps of a comprehension that came to a result.
ok-bind :
    {A B : Type 0} (m : Outcome A) (f : A → Outcome B) (b : B)
    → (m >>= f) ≡ ok b
    → (a : A) × (m ≡ ok a) × (f a ≡ ok b)
ok-bind (ok a) f b e = (a, refl, e)
ok-bind unhashable f b e = absurd (cc)

hashed-eq : (key : Value) (s : String) → hashed key ≡ ok s → key ≡ text s
hashed-eq (text t) s e = ground (arith, e)
hashed-eq (mapping m) s e = absurd (cc)
hashed-eq (iterable m) s e = absurd (cc)
hashed-eq (other m) s e = absurd (cc)

before_none : (o : Option Value) → or_before o none ≡ o
before_none none = refl
before_none (some v) = refl

key_text_of :
    (key : Value) (s : String) → safe_for_serialization key ≡ ok (text s) → key_text key ≡ some s
unfolding safe_for_serialization
key_text_of (text t) s e = ground (arith, e)
key_text_of (other (some t)) s e = ground (arith, e)
key_text_of (other none) s e = ground (arith, e)
key_text_of (iterable l) s e =
    let (m, done, last) = ok-bind (safe_values l) (λ safe. ok (iterable safe)) (text s) e in
    absurd (ground (arith, last))
key_text_of (mapping l) s e =
    let (m, done, last) = ok-bind (safe_items end l) (λ safe. ok (mapping safe)) (text s) e in
    absurd (ground (arith, last))

-- The entry under a key, once one more item was written.
put_item-EntryWritten :
    (s k : String) (v w : Value) (made : Items) (before : String → Option Value)
    → IsWritten v w
    → EntryWritten (before k) (found_under k made)
    → EntryWritten (if s == k then some v else before k) (found_under k (put_item s w made))
put_item-EntryWritten s k v w made before h b =
    rw (found_under-put_item s k w made) (elim (Bool-cases (s == k)) [
      | inl same ↦ rw same (an_entry v w h)
      | inr differs ↦ rw differs b
    ])

last_under-eq :
    (key v : Value) (rest : Items) (s k : String) (before : Option Value)
    → key_text key ≡ some s
    → or_before (last_under k rest) (if s == k then some v else before)
      ≡ or_before (last_under k (item key v rest)) before
last_under-eq key v rest s k before e = ground (arith, e)

mutual
  unfolding safe_for_serialization

  pub safe-IsWritten : (v w : Value) → safe_for_serialization v ≡ ok w → IsWritten v w
  safe-IsWritten (text s) w e =
      let it : text s ≡ w = ground (arith, e) in subst (λ x. IsWritten (text s) x) it (a_text s)
  safe-IsWritten (other (some s)) w e =
      let it : text s ≡ w = ground (arith, e) in
      subst (λ x. IsWritten (other (some s)) x) it (its_text s)
  safe-IsWritten (other none) w e =
      let it : text "[__unicode__ failed]" ≡ w = ground (arith, e) in
      subst (λ x. IsWritten (other none) x) it no_text
  safe-IsWritten (iterable l) w e =
      let (m, done, last) = ok-bind (safe_values l) (λ safe. ok (iterable safe)) w e in
      let it : iterable m ≡ w = ground (arith, last) in
      subst (λ x. IsWritten (iterable l) x) it (a_list l m (safe_values-AreWritten l m done))
  safe-IsWritten (mapping items) w e =
      let (m, done, last) = ok-bind (safe_items end items) (λ safe. ok (mapping safe)) w e in
      let it : mapping m ≡ w = ground (arith, last) in
      subst (λ x. IsWritten (mapping items) x) it
        (a_dict items m (λ k.
          subst (λ o. EntryWritten o (found_under k m)) (before_none (last_under k items))
            (safe_items-Entries end items m done (λ j. none) (λ j. no_entry) k)))

  pub safe_values-AreWritten : (l m : Values) → safe_values l ≡ ok m → AreWritten l m
  safe_values-AreWritten nil m e =
      let it : nil ≡ m = ground (arith, e) in subst (λ x. AreWritten nil x) it no_more
  safe_values-AreWritten (cons v l) m e =
      let (w, first, e1) =
        ok-bind (safe_for_serialization v) (λ x. do others ← safe_values l; ok (cons x others)) m
          e in
      let (others, rest, e2) = ok-bind (safe_values l) (λ x. ok (cons w x)) m e1 in
      let it : cons w others ≡ m = ground (arith, e2) in
      subst (λ x. AreWritten (cons v l) x) it
        (one_more v w l others (safe-IsWritten v w first) (safe_values-AreWritten l others rest))

  safe_items-Entries :
      (made l m : Items)
      → safe_items made l ≡ ok m
      → (before : String → Option Value)
      → ((k : String) → EntryWritten (before k) (found_under k made))
      → (k : String) → EntryWritten (or_before (last_under k l) (before k)) (found_under k m)
  safe_items-Entries made end m e before h k =
      let it : made ≡ m = ground (arith, e) in
      subst (λ x. EntryWritten (before k) (found_under k x)) it (h k)
  safe_items-Entries made (item key v rest) m e before h k =
      let (kv, key_done, e1) = ok-bind (safe_for_serialization key) _ m e in
      let (vv, value_done, e2) = ok-bind (safe_for_serialization v) _ m e1 in
      let (s, hash, e3) = ok-bind (hashed kv) _ m e2 in
      let named = key_text_of key s (key_done ∙ ap ok (hashed-eq kv s hash)) in
      subst (λ o. EntryWritten o (found_under k m)) (last_under-eq key v rest s k (before k) named)
        (safe_items-Entries (put_item s vv made) rest m e3
          (λ j. if s == j then some v else before j)
          (λ j. put_item-EntryWritten s j v vv made before (safe-IsWritten v vv value_done) (h j))
          k)
