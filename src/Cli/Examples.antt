-- ===== src/Cli/Examples.antt =====
-- The theorems about nameko/cli at concrete texts and runs.
use nameko.Prelude.{
  ℕ, ◌≡◌, Bool, true, false, ◌&&◌, Option, none, some, List, [], ◌∷◌, ◌++◌, nat_eq, refl,
  if◌then◌else◌,
}
use nameko.Prelude.Scan.{Text}
use nameko.Exceptions.{nil}
use nameko.Exceptions.Registry.{Exc}
use nameko.Action.{returned}
use nameko.Cli.EnvVar.{colon, env_var_constructor}
use nameko.Cli.Running.{
  start, stop, cut_stop, kill, Wait, interrupted, failed, keyboard_interrupt, completed, left,
  Failures, loop,
}
use nameko.Cli.Services.{dot, class, import_error, Modules, import_service}
use nameko.Cli.Services.Finding.{Answer, import_service-Answer}
use nameko.Cli.EnvVar.Filled.{Segment, literal, variable, write_all, env_var_constructor-fill_all}

abbrev is_space : ℕ → Bool
is_space c = nat_eq c 32

abbrev host : Text
host = b'H' ∷ b'O' ∷ b'S' ∷ b'T' ∷ []

abbrev same : Text → Text → Bool
same [] [] = true
same (c ∷ cs) (d ∷ ds) = nat_eq c d && same cs ds
same _ _ = false

-- HOST is set, and nothing else.
abbrev environ : Text → Option Text
environ name = if same name host then some (b'd' ∷ b'b' ∷ []) else none

-- `tcp//${HOST:x}/${PORT:80}${Q}`
abbrev address : List Segment
address =
    literal (b't' ∷ b'c' ∷ b'p' ∷ b'/' ∷ b'/' ∷ [])
    ∷ variable host (some (b'x' ∷ []))
    ∷ literal (b'/' ∷ [])
    ∷ variable (b'P' ∷ []) (some (b'8' ∷ b'0' ∷ []))
    ∷ variable (b'Q' ∷ []) none
    ∷ []

env_var_constructor-fill_all_example :
    env_var_constructor is_space environ (write_all address)
    ≡ some (b't' ∷ b'c' ∷ b'p' ∷ b'/' ∷ b'/' ∷ b'd' ∷ b'b' ∷ b'/' ∷ b'8' ∷ b'0' ∷ [])
env_var_constructor-fill_all_example = env_var_constructor-fill_all is_space environ address (
  (refl, (refl, (refl, (refl, (refl, tt))))),
  (
    ((refl, (refl, (refl, (refl, tt)))), (refl, tt)),
    ((refl, tt), (((refl, tt), (refl, (refl, tt))), (((refl, tt), tt), tt))),
  ),
)

-- a.b, and its file a/b.py, which cannot be imported
abbrev dotted : Text
dotted = b'a' ∷ dot ∷ b'b' ∷ []

-- a.b:S
abbrev named_class : Text
named_class = dotted ++ colon ∷ b'S' ∷ []

abbrev modules : Modules ℕ Unit
modules = record {
  import_module = λ name. if same name dotted then none else some (import_error []);
  path_exists = λ path. true;
  is_missing = λ name message. true;
  classes = λ name. 7 ∷ [];
  has_entrypoints = λ s. true;
  getattr = λ name obj. some (class 7);
}

import_service-Answer_example : Answer modules named_class (import_service modules named_class)
import_service-Answer_example = import_service-Answer modules named_class

abbrev crashed : Exc
crashed = record {
  type = record { module_name = "builtins"; name = "OSError" };
  args = nil;
  as_text = none;
}

abbrev no_failures : Failures
no_failures = record { of_backdoor = none; of_start = none; of_stop = none; of_kill = none }

abbrev waits : List Wait
waits =
    interrupted
    ∷ keyboard_interrupt false
    ∷ keyboard_interrupt true
    ∷ completed
    ∷ failed crashed
    ∷ []

loops : loop no_failures waits (start ∷ []) ≡ (returned left, start ∷ stop ∷ cut_stop ∷ kill ∷ [])
unfolding loop
loops = refl
