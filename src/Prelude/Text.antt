-- ===== src/Prelude/Text.antt =====
-- Python's `'{}.{}'.format(a, b)` and the removal of such a prefix, on native texts.
use Prim.Native.String.{String, len, slice, ◌++◌}
use mathlib.Core.Path.{◌≡◌}
use text.Mathlib.Text.{starts_with}
use text.Mathlib.TextLemmas.{append_cancel_left}
use text.Mathlib.TextPositions.{len-append, slice-append_right, starts_with-append}
use nameko.Prelude.Tests.{if◌then◌else◌}

-- '{}.'.format(s)
unfoldable pub dotted : String → String
dotted s = s ++ "."

-- '{}.{}'.format(s, t)
unfoldable pub join_dot : String → String → String
unfolding dotted
join_dot s t = dotted s ++ t

-- key[len(prefix):] if key.startswith(prefix), else key
unfoldable pub strip_prefix : String → String → String
strip_prefix prefix key = if starts_with key prefix then slice key (len prefix) (len key) else key

pub strip_prefix-join_dot : (s t : String) → strip_prefix (dotted s) (join_dot s t) ≡ t
unfolding strip_prefix join_dot
strip_prefix-join_dot s t =
    rw (starts_with-append (s ++ ".") t, len-append (s ++ ".") t) (slice-append_right (s ++ ".") t)

pub join_dot-injective : (s t u : String) → join_dot s t ≡ join_dot s u → t ≡ u
unfolding join_dot
join_dot-injective s t u h = append_cancel_left (s ++ ".") t u h
