-- ===== src/Cli/Services/Failing.antt =====
-- What a failing import of a service raises (nameko/cli/run.py).
use nameko.Prelude.Scan.{Text}
use nameko.Prelude.{
  ◌≡◌, ◌≢◌, ◌⊎◌, inl, inr, true, false, [], ◌∷◌, ◌++◌, nat_eq, arith, refl, ap, ◌∙◌, map,
  Bool-cases, if◌then◌else◌,
}
use nameko.Cli.Services.{
  dot, slash, is_py, ends_with_py, drop_last_three, replace_slashes, hint, ImportFailure,
  import_error, other, Failure, did_you_mean, no_module, reraised, Modules, import_failure,
}

abbrev pub py : Text
py = dot ∷ b'p' ∷ b'y' ∷ []

pub ends_with_py-file : (name : Text) → ends_with_py (name ++ py) ≡ true
unfolding ends_with_py
ends_with_py-file [] = refl
ends_with_py-file (c ∷ name) = ground (arith, ends_with_py-file name)

pub drop_last_three-file : (name : Text) → drop_last_three (name ++ py) ≡ name
unfolding drop_last_three
drop_last_three-file [] = refl
drop_last_three-file (c ∷ []) = refl
drop_last_three-file (c ∷ d ∷ []) = refl
drop_last_three-file (c ∷ d ∷ e ∷ []) = refl
drop_last_three-file (c ∷ d ∷ e ∷ f ∷ name) =
    ap (λ t. c ∷ t) (drop_last_three-file (d ∷ e ∷ f ∷ name))

-- A name that is told to end with .py does.
is_py-eq : (cs : Text) → is_py cs ≡ true → cs ≡ py
is_py-eq [] h = absurd (cc)
is_py-eq (a ∷ []) h = absurd (cc)
is_py-eq (a ∷ b ∷ []) h = absurd (cc)
is_py-eq (a ∷ b ∷ c ∷ []) h = ground (arith, h)
is_py-eq (a ∷ b ∷ c ∷ d ∷ cs) h = absurd (cc)

ends_with_py-finds : (name : Text) → ends_with_py name ≡ true → (base : Text) × (name ≡ base ++ py)
unfolding ends_with_py
ends_with_py-finds [] h = absurd (cc)
ends_with_py-finds (c ∷ cs) h = elim (Bool-cases (is_py (c ∷ cs))) [
  | inl here ↦ ([], is_py-eq (c ∷ cs) here)
  | inr later ↦
      let (base, it) = ends_with_py-finds cs (ground (arith, later, h)) in
      (c ∷ base, ap (λ l. c ∷ l) it)
]

-- A path with dots for its slashes
abbrev pub dotted : Text → Text
dotted path = map (λ c. if nat_eq c slash then dot else c) path

replace_slashes-map : (path : Text) → replace_slashes path ≡ dotted path
unfolding replace_slashes
replace_slashes-map [] = refl
replace_slashes-map (c ∷ path) =
    ap (λ l. (if nat_eq c slash then dot else c) ∷ l) (replace_slashes-map path)

module _ {S X : Type 0} (modules : Modules S X) (name : Text) where
  open modules use {path_exists, is_missing}

  -- The name is no path of a file that is there.
  abbrev pub IsNoFile : Type 0
  IsNoFile = ((base : Text) → name ≢ base ++ py) ⊎ (path_exists name ≡ false)

  -- What is raised for what importing the name raised: an exception of the module's own goes on; an
  -- ImportError asks for the module that was meant, if the name is the path of a file that is there,
  -- or else is a CommandError with its text, if it says that the module itself is missing, and goes
  -- on if not.
  pub data Fails : ImportFailure X → Failure X → Type 0 where
    broken : (exc : X) → Fails (other exc) (reraised (other exc))
    is_file :
        (base message : Text)
        → name ≡ base ++ py
        → path_exists name ≡ true
        → Fails (import_error message) (did_you_mean (dotted base))
    absent :
        (message : Text)
        → IsNoFile
        → is_missing name message ≡ true
        → Fails (import_error message) (no_module message)
    inside :
        (message : Text)
        → IsNoFile
        → is_missing name message ≡ false
        → Fails (import_error message) (reraised (import_error message))

  no_file-Fails :
      (message : Text)
      → IsNoFile
      → Fails
          (import_error message)
          (if is_missing name message then no_module message else reraised (import_error message))
  no_file-Fails message no_file = elim (Bool-cases (is_missing name message)) [
    | inl yes_it ↦ rw yes_it (absent message no_file yes_it)
    | inr no_it ↦ rw no_it (inside message no_file no_it)
  ]

  pub import_failure-Fails :
      (failure : ImportFailure X) → Fails failure (import_failure modules name failure)
  unfolding import_failure hint
  import_failure-Fails (other exc) = broken exc
  import_failure-Fails (import_error message) = elim (Bool-cases (ends_with_py name)) [
    | inr plain ↦ rw plain (
        no_file-Fails message (
          inl (λ base it.
            absurd (ground (arith, plain, ap ends_with_py it, ends_with_py-file base)))))
    | inl is_path ↦ elim (Bool-cases (path_exists name)) [
      | inr absent_file ↦ rw (is_path, absent_file) (no_file-Fails message (inr absent_file))
      | inl there ↦
          let (base, it) = ends_with_py-finds name is_path in
          let meant : replace_slashes (drop_last_three name) ≡ dotted base =
            ap (λ n. replace_slashes (drop_last_three n)) it
            ∙ (ap replace_slashes (drop_last_three-file base) ∙ replace_slashes-map base) in
          rw (is_path, there, meant) (is_file base message it there)
    ]
  ]
