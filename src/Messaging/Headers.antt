-- ===== src/Messaging/Headers.antt =====
-- `HeaderEncoder` and `HeaderDecoder` of nameko/messaging.py.
pub mod Chain
pub mod RoundTrip
use nameko.Prelude.{String, List, [], ◌∷◌, string_eq}
use nameko.Prelude.Dict.{Dict, update}
use nameko.Prelude.Text.{dotted, join_dot, strip_prefix}
use nameko.Containers.Context.{Datum, null, ids, scalar}

abbrev pub header_prefix : String
header_prefix = "nameko"

unfoldable pub get_header_name : String → String
get_header_name key = join_dot header_prefix key

unfoldable pub strip_header_name : String → String
strip_header_name key = strip_prefix (dotted header_prefix) key

module _ {V : Type 0} where
  -- The items of the comprehension in `get_message_headers`: those whose value is not None.
  unfoldable pub header_items : Dict String (Datum V) → List (String × Datum V)
  header_items [] = []
  header_items ((key, null) ∷ rest) = header_items rest
  header_items ((key, value) ∷ rest) = (get_header_name key, value) ∷ header_items rest

  unfoldable pub stripped_items : Dict String (Datum V) → List (String × Datum V)
  stripped_items [] = []
  stripped_items ((key, value) ∷ rest) = (strip_header_name key, value) ∷ stripped_items rest

  -- `get_message_headers` on the context data of the worker
  unfoldable pub get_message_headers : Dict String (Datum V) → Dict String (Datum V)
  unfolding header_items
  get_message_headers entries = update [] (header_items entries)

  -- `unpack_message_headers` on the headers of a message
  unfoldable pub unpack_message_headers : Dict String (Datum V) → Dict String (Datum V)
  unfolding stripped_items
  unpack_message_headers headers = update [] (stripped_items headers)
