-- ===== src/Cli/Services.antt =====
-- `import_service` of nameko/cli/run.py: from a name on the command line to service classes. Names are
-- lists of code points.

pub mod Failing
pub mod Finding
pub mod Hint
use nameko.Prelude.Scan.{Text, take_while, drop_while}
use nameko.Prelude.{
  ℕ, Bool, true, false, not, ◌&&◌, Option, none, some, List, [], ◌∷◌, nat_eq, if◌then◌else◌,
}
use nameko.Action.{Result, returned, raised}
use nameko.Cli.EnvVar.{colon}

abbrev pub dot : ℕ
dot = b'.'

abbrev pub slash : ℕ
slash = b'/'

abbrev pub not_colon : ℕ → Bool
not_colon c = not (nat_eq c colon)

-- `module_name.split(":", 1)`, with `none` for a list of one part
abbrev pub after_colon : Text → Option Text
after_colon [] = none
after_colon (c ∷ obj) = some obj

unfoldable pub split : Text → Text × Option Text
unfolding take_while drop_while
split name = (take_while not_colon name, after_colon (drop_while not_colon name))

-- `module_name.endswith(".py")`
abbrev pub is_py : Text → Bool
is_py (d ∷ p ∷ y ∷ []) = nat_eq d dot && (nat_eq p b'p' && nat_eq y b'y')
is_py _ = false

unfoldable pub ends_with_py : Text → Bool
ends_with_py [] = false
ends_with_py (c ∷ cs) = let rest = ends_with_py cs in if is_py (c ∷ cs) then true else rest

-- `module_name[:-3]`
unfoldable pub drop_last_three : Text → Text
drop_last_three (a ∷ b ∷ c ∷ d ∷ cs) = a ∷ drop_last_three (b ∷ c ∷ d ∷ cs)
drop_last_three _ = []

-- `.replace('/', '.')`
unfoldable pub replace_slashes : Text → Text
replace_slashes [] = []
replace_slashes (c ∷ cs) = (if nat_eq c slash then dot else c) ∷ replace_slashes cs

-- The module that is meant by the name of a file
unfoldable pub hint : Text → Text
unfolding drop_last_three replace_slashes
hint name = replace_slashes (drop_last_three name)

-- What `__import__` raises: an ImportError with its text, or an exception of the module's own code.
pub data ImportFailure (X : Type 0) : Type 0 where
  import_error : Text → ImportFailure X
  other : X → ImportFailure X

pub data Failure (X : Type 0) : Type 0 where
  did_you_mean : Text → Failure X
  no_module : Text → Failure X
  nothing_found : Text → Failure X
  no_class : Text → Text → Failure X
  not_a_class : Failure X
  reraised : ImportFailure X → Failure X

-- An attribute of a module
pub data Attr (S : Type 0) : Type 0 where
  class : S → Attr S
  object : Attr S

-- What stands outside: importing, the file system, the pattern for the text of an ImportError that
-- misses the module itself, and `inspect` with the classes of a module and their entrypoints.
pub record Modules (S X : Type 0) : Type 0 where
  pub import_module : Text → Option (ImportFailure X)
  pub path_exists : Text → Bool
  pub is_missing : Text → Text → Bool
  pub classes : Text → List S
  pub has_entrypoints : S → Bool
  pub getattr : Text → Text → Option (Attr S)

module _ {S X : Type 0} (modules : Modules S X) where
  open modules use {import_module, path_exists, is_missing, classes, has_entrypoints, getattr}

  unfoldable pub import_failure : Text → ImportFailure X → Failure X
  unfolding ends_with_py hint
  import_failure name (other exc) = reraised (other exc)
  import_failure name (import_error message) =
      if ends_with_py name && path_exists name
      then did_you_mean (hint name)
      else if is_missing name message
      then no_module message
      else reraised (import_error message)

  -- The loop over `inspect.getmembers(module, is_type)`
  unfoldable pub with_entrypoints : List S → List S
  with_entrypoints [] = []
  with_entrypoints (s ∷ rest) =
      let found_services = with_entrypoints rest in
      if has_entrypoints s then s ∷ found_services else found_services

  abbrev pub some_found : Text → List S → Result (Failure X) (List S)
  some_found name [] = raised (nothing_found name)
  some_found name (s ∷ rest) = returned (s ∷ rest)

  abbrev pub only_class : Text → Text → Option (Attr S) → Result (Failure X) (List S)
  only_class name obj none = raised (no_class obj name)
  only_class name obj (some object) = raised not_a_class
  only_class name obj (some (class s)) = returned (s ∷ [])

  -- `found_services`, in a module that was imported
  abbrev found_in : Text → Option Text → Result (Failure X) (List S)
  found_in name none = some_found name (with_entrypoints (classes name))
  found_in name (some obj) = only_class name obj (getattr name obj)

  abbrev pub imported : Text × Option Text → Result (Failure X) (List S)
  imported parts = elim (import_module parts.0) [
    | some failure ↦ raised (import_failure parts.0 failure)
    | none ↦ found_in parts.0 parts.1
  ]

  unfoldable pub import_service : Text → Result (Failure X) (List S)
  unfolding split import_failure with_entrypoints
  import_service module_name = imported (split module_name)
