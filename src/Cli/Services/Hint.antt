-- ===== src/Cli/Services/Hint.antt =====
-- The module that a failed import of a file names (nameko/cli/run.py).
use nameko.Prelude.Scan.{Text, Chars}
use nameko.Prelude.{◌≡◌, some, true, not, [], ◌∷◌, ◌++◌, nat_eq, arith, refl, if◌then◌else◌}
use nameko.Action.{raised}
use nameko.Cli.Services.Failing.{py, ends_with_py-file, drop_last_three-file}
use nameko.Cli.Services.Finding.{split-plain}
use nameko.Cli.Services.{
  not_colon, import_service, dot, slash, replace_slashes, hint, did_you_mean, import_error, Modules,
  import_failure,
}

-- The path of the file of a module
abbrev pub path_of : Text → Text
path_of [] = []
path_of (c ∷ name) = (if nat_eq c dot then slash else c) ∷ path_of name

abbrev pub HasNoSlash : Text → Type 0
HasNoSlash = Chars (λ c. not (nat_eq c slash))

replace_slashes-path_of : (name : Text) → HasNoSlash name → replace_slashes (path_of name) ≡ name
unfolding replace_slashes
replace_slashes-path_of [] h = refl
replace_slashes-path_of (c ∷ name) h = ground (arith, h.0, replace_slashes-path_of name h.1)

path_of-Chars : (name : Text) → Chars not_colon name → Chars not_colon (path_of name ++ py)
path_of-Chars [] h = (refl, (refl, (refl, tt)))
path_of-Chars (c ∷ name) h = (ground (arith, h.0), path_of-Chars name h.1)

module _ {S X : Type 0} (modules : Modules S X) where
  import_failure-hint :
      (name message : Text)
      → HasNoSlash name
      → modules.path_exists (path_of name ++ py) ≡ true
      → import_failure modules (path_of name ++ py) (import_error message) ≡ did_you_mean name
  unfolding import_failure hint
  import_failure-hint name message no_slash there =
      rw
        (
          ends_with_py-file (path_of name),
          there,
          drop_last_three-file (path_of name),
          replace_slashes-path_of name no_slash,
        )
        refl

  -- Let a file of the name of a module be there, the path with its slashes, and let the name have no
  -- slash and no colon. If importing the path raises an ImportError, then the command line raises a
  -- CommandError that asks whether just that module was meant.
  pub import_service-hint :
      (name message : Text)
      → HasNoSlash name
      → Chars not_colon name
      → modules.path_exists (path_of name ++ py) ≡ true
      → modules.import_module (path_of name ++ py) ≡ some (import_error message)
      → import_service modules (path_of name ++ py) ≡ raised (did_you_mean name)
  unfolding import_service
  import_service-hint name message no_slash no_colon there fails = ground (
    arith,
    split-plain (path_of name ++ py) (path_of-Chars name no_colon),
    fails,
    import_failure-hint name message no_slash there,
  )
