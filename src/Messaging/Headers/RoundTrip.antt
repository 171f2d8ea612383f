-- ===== src/Messaging/Headers/RoundTrip.antt =====
-- Headers of nameko/messaging.py, encoded and decoded.
use nameko.Prelude.{String, ◌≡◌, refl, Option, none, some, [], ◌∷◌, arith, string_eq, ◌==◌, ap}
use nameko.Prelude.Dict.{Dict, IsDict, get, update-eq-append}
use nameko.Prelude.Text.{join_dot, strip_prefix-join_dot, join_dot-injective}
use nameko.Containers.Context.{Datum, null, ids, scalar}
use nameko.Messaging.Headers.{
  header_prefix, get_header_name, strip_header_name, header_items, stripped_items,
  get_message_headers, unpack_message_headers,
}

-- Two keys have one header name only if they are one key.
same_name : (k j : String) → (get_header_name k == get_header_name j) ≡ (k == j)
unfolding get_header_name
same_name k j = ground (
  arith,
  string_eq.equal_iff k j,
  string_eq.equal_iff (join_dot header_prefix k) (join_dot header_prefix j),
  join_dot-injective header_prefix k j,
  one_name k j,
)
  where
    one_name : (a b : String) → a ≡ b → join_dot header_prefix a ≡ join_dot header_prefix b
    one_name a b p = ap (join_dot header_prefix) p

module _ {V : Type 0} where
  same_key : (k j : String) (d : Dict String (Datum V)) → k ≡ j → get k d ≡ get j d
  same_key k j d p = ap (λ x. get x d) p

  -- The items whose value is not None.
  unfoldable pub without_null : Dict String (Datum V) → Dict String (Datum V)
  without_null [] = []
  without_null ((key, null) ∷ rest) = without_null rest
  without_null ((key, value) ∷ rest) = (key, value) ∷ without_null rest

  stripped_items-header_items :
      (d : Dict String (Datum V)) → stripped_items (header_items d) ≡ without_null d
  unfolding stripped_items header_items without_null strip_header_name get_header_name
  stripped_items-header_items [] = refl
  stripped_items-header_items ((key, null) ∷ rest) = stripped_items-header_items rest
  stripped_items-header_items ((key, ids l) ∷ rest) =
      cc (strip_prefix-join_dot header_prefix key, stripped_items-header_items rest)
  stripped_items-header_items ((key, scalar v) ∷ rest) =
      cc (strip_prefix-join_dot header_prefix key, stripped_items-header_items rest)

  abbrev pub not_null : Option (Datum V) → Option (Datum V)
  not_null (some null) = none
  not_null o = o

  pub get-without_null :
      (k : String) (d : Dict String (Datum V))
      → IsDict d
      → get k (without_null d) ≡ not_null (get k d)
  unfolding without_null get
  get-without_null k [] h = refl
  get-without_null k ((key, null) ∷ rest) h =
      ground (arith, get-without_null k rest h.1, string_eq.equal_iff key k, same_key key k rest)
  get-without_null k ((key, ids l) ∷ rest) h = ground (arith, get-without_null k rest h.1)
  get-without_null k ((key, scalar v) ∷ rest) h = ground (arith, get-without_null k rest h.1)

  pub without_null-IsDict : (d : Dict String (Datum V)) → IsDict d → IsDict (without_null d)
  unfolding without_null
  without_null-IsDict [] h = tt
  without_null-IsDict ((key, null) ∷ rest) h = without_null-IsDict rest h.1
  without_null-IsDict ((key, ids l) ∷ rest) h =
      (ground (arith, get-without_null key rest h.1), without_null-IsDict rest h.1)
  without_null-IsDict ((key, scalar v) ∷ rest) h =
      (ground (arith, get-without_null key rest h.1), without_null-IsDict rest h.1)

  fresh-header_items :
      (k : String) (d : Dict String (Datum V))
      → get k d ≡ none
      → get (get_header_name k) (header_items d) ≡ none
  unfolding header_items get
  fresh-header_items k [] h = refl
  fresh-header_items k ((key, null) ∷ rest) h = ground (arith, fresh-header_items k rest)
  fresh-header_items k ((key, ids l) ∷ rest) h =
      ground (arith, fresh-header_items k rest, same_name key k)
  fresh-header_items k ((key, scalar v) ∷ rest) h =
      ground (arith, fresh-header_items k rest, same_name key k)

  header_items-IsDict : (d : Dict String (Datum V)) → IsDict d → IsDict (header_items d)
  unfolding header_items
  header_items-IsDict [] h = tt
  header_items-IsDict ((key, null) ∷ rest) h = header_items-IsDict rest h.1
  header_items-IsDict ((key, ids l) ∷ rest) h =
      (fresh-header_items key rest h.0, header_items-IsDict rest h.1)
  header_items-IsDict ((key, scalar v) ∷ rest) h =
      (fresh-header_items key rest h.0, header_items-IsDict rest h.1)

  -- On a dict, unpacking the packed headers gives the items whose value is not None, in order.
  pub unpack-get_message_headers :
      (d : Dict String (Datum V))
      → IsDict d
      → unpack_message_headers (get_message_headers d) ≡ without_null d
  unfolding unpack_message_headers get_message_headers
  unpack-get_message_headers d h =
      rw (update-eq-append [] (header_items d) (header_items-IsDict d h)) (
        rw (stripped_items-header_items d)
          (update-eq-append [] (without_null d) (without_null-IsDict d h)))
