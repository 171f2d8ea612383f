-- ===== src/Cli/Services/Finding.antt =====
-- The service classes that a name on the command line stands for (nameko/cli/run.py).
use nameko.Prelude.Scan.{
  Text, take_while, drop_while, Chars, take_while-Chars, take_while_stops, take_while-drop_while,
  drop_while_all, drop_while-first, take_while_all,
}
use nameko.Prelude.{
  ℕ, ◌≡◌, ◌⊎◌, inl, inr, Bool, true, false, Option, none, some, List, [], ◌∷◌, ◌++◌, if◌then◌else◌,
  ◌↔◌, arith, refl, ap, sym, ◌∙◌, subst, Among, first, later,
}
use mathlib.Core.List.{append-nil}
use nameko.Action.{Result, returned, raised}
use nameko.Cli.EnvVar.{colon}
use nameko.Cli.Services.Failing.{Fails, import_failure-Fails}
use nameko.Cli.Services.{
  not_colon, split, after_colon, class, object, Attr, Modules, with_entrypoints, ImportFailure,
  Failure, nothing_found, no_class, not_a_class, import_failure, some_found, only_class, found_in,
  imported, import_service,
}

pub split-plain : (name : Text) → Chars not_colon name → split name ≡ (name, none)
unfolding split
split-plain name h = rw (take_while_all not_colon name h, drop_while_all not_colon name h) refl

pub split-named :
    (name obj : Text) → Chars not_colon name → split (name ++ colon ∷ obj) ≡ (name, some obj)
unfolding split
split-named name obj h =
    let (taken, left) = take_while_stops not_colon name obj colon h refl in rw (taken, left) refl

-- A name is that of a module, or of a module, a colon and a class; the colon is the first one.
pub data Named : Text → Text × Option Text → Type 0 where
  module_only : (name : Text) → Chars not_colon name → Named name (name, none)
  module_and_class :
      (name obj : Text) → Chars not_colon name → Named (name ++ colon ∷ obj) (name, some obj)

split-Named : (path : Text) → Named path (split path)
unfolding split
split-Named path =
    subst (λ p. Named p (split path)) (take_while-drop_while not_colon path)
      (joined (take_while not_colon path) (drop_while not_colon path)
        (take_while-Chars not_colon path) (λ c ds. drop_while-first not_colon c path ds))
  where
    joined :
        (name rest : Text)
        → Chars not_colon name
        → ((c : ℕ) (ds : Text) → rest ≡ c ∷ ds → not_colon c ≡ false)
        → Named (name ++ rest) (name, after_colon rest)
    joined name [] h stops =
        subst (λ p. Named p (name, none)) (sym (append-nil name)) (module_only name h)
    joined name (c ∷ obj) h stops =
        let at_colon : c ≡ colon = ground (arith, stops c obj refl) in
        subst (λ x. Named (name ++ x ∷ obj) (name, some obj)) (sym at_colon)
          (module_and_class name obj h)

Among-if :
    {S : Type 0} (s x : S) (b : Bool) (l : List S)
    → Among s (if b then x ∷ l else l)
    → ((x ≡ s) × (b ≡ true)) ⊎ Among s l
Among-if s x true l (first _ _ it) = inl (it, refl)
Among-if s x true l (later _ _ h) = inr h
Among-if s x false l h = inr h

Among-if_kept :
    {S : Type 0} (s x : S) (b : Bool) (l : List S) → Among s l → Among s (if b then x ∷ l else l)
Among-if_kept s x true l h = later x l h
Among-if_kept s x false l h = h

module _ {S X : Type 0} (modules : Modules S X) where
  open modules use {import_module, classes, has_entrypoints, getattr}

  with_entrypoints-finds :
      (s : S) (l : List S)
      → Among s (with_entrypoints modules l)
      → Among s l × (has_entrypoints s ≡ true)
  unfolding with_entrypoints
  with_entrypoints-finds s [] h = elim h [ ]
  with_entrypoints-finds s (x ∷ l) h =
      elim (Among-if s x (has_entrypoints x) (with_entrypoints modules l) h) [
        | inl (it, has) ↦ (first x l it, subst (λ y. has_entrypoints y ≡ true) it has)
        | inr deep ↦ let (a, has) = with_entrypoints-finds s l deep in (later x l a, has)
      ]

  with_entrypoints-keeps :
      (s : S) (l : List S)
      → Among s l
      → has_entrypoints s ≡ true
      → Among s (with_entrypoints modules l)
  unfolding with_entrypoints
  with_entrypoints-keeps s [] h has = elim h [ ]
  with_entrypoints-keeps s (x ∷ l) (first _ _ it) has =
      let yes_it : has_entrypoints x ≡ true = ap has_entrypoints it ∙ has in
      rw yes_it (first x (with_entrypoints modules l) it)
  with_entrypoints-keeps s (x ∷ l) (later _ _ h) has =
      Among-if_kept s x (has_entrypoints x) (with_entrypoints modules l)
        (with_entrypoints-keeps s l h has)

  -- The classes of a module that have entrypoints, in a list.
  abbrev pub AreServices : Text → List S → Type 0
  AreServices name l = (s : S) → Among s l ↔ (Among s (classes name) × (has_entrypoints s ≡ true))

  with_entrypoints-AreServices :
      (name : Text) → AreServices name (with_entrypoints modules (classes name))
  with_entrypoints-AreServices name s = (
    λ h. with_entrypoints-finds s (classes name) h,
    λ h. with_entrypoints-keeps s (classes name) h.0 h.1,
  )

  -- How a name is answered: the class that it names; or all classes of the module that have
  -- entrypoints, one at least; or else what fails.
  pub data Answer (path : Text) : Result (Failure X) (List S) → Type 0 where
    the_class :
        (name obj : Text) (s : S)
        → Named path (name, some obj)
        → import_module name ≡ none
        → getattr name obj ≡ some (class s)
        → Answer path (returned (s ∷ []))
    all_services :
        (name : Text) (s : S) (l : List S)
        → Named path (name, none)
        → import_module name ≡ none
        → AreServices name (s ∷ l)
        → Answer path (returned (s ∷ l))
    no_import :
        (name : Text) (obj : Option Text) (failure : ImportFailure X) (result : Failure X)
        → Named path (name, obj)
        → import_module name ≡ some failure
        → Fails modules name failure result
        → Answer path (raised result)
    no_service :
        (name : Text)
        → Named path (name, none)
        → import_module name ≡ none
        → AreServices name []
        → Answer path (raised (nothing_found name))
    no_attribute :
        (name obj : Text)
        → Named path (name, some obj)
        → import_module name ≡ none
        → getattr name obj ≡ none
        → Answer path (raised (no_class obj name))
    no_type :
        (name obj : Text)
        → Named path (name, some obj)
        → import_module name ≡ none
        → getattr name obj ≡ some object
        → Answer path (raised not_a_class)

  found_in-Answer :
      (path name : Text) (obj : Option Text)
      → Named path (name, obj)
      → import_module name ≡ none
      → Answer path (found_in modules name obj)
  found_in-Answer path name none n i =
      some_found-Answer (with_entrypoints modules (classes name))
        (with_entrypoints-AreServices name)
    where
      some_found-Answer :
          (l : List S) → AreServices name l → Answer path (some_found modules name l)
      some_found-Answer [] h = no_service name n i h
      some_found-Answer (s ∷ l) h = all_services name s l n i h
  found_in-Answer path name (some obj) n i = only_class-Answer (getattr name obj) refl
    where
      only_class-Answer :
          (a : Option (Attr S)) → getattr name obj ≡ a → Answer path (only_class modules name obj a)
      only_class-Answer none e = no_attribute name obj n i e
      only_class-Answer (some object) e = no_type name obj n i e
      only_class-Answer (some (class s)) e = the_class name obj s n i e

  -- Every name is answered: the module is what stands before the first colon, if there is one, and it
  -- is imported. With a colon, the classes are the one that the module has under the rest of the name;
  -- without, they are all those of the module that have entrypoints, one at least. A missing
  -- attribute, one that is no class, and a module without services raise CommandErrors of their own. A
  -- failing import asks for the module that was meant, if the name is the path of a file that is
  -- there, raises a CommandError, if the ImportError misses the module itself, and goes on if not.
  pub import_service-Answer : (path : Text) → Answer path (import_service modules path)
  unfolding import_service
  import_service-Answer path =
      imported-Answer (split path) (split-Named path) (import_module (split path).0) refl
    where
      imported-Answer :
          (parts : Text × Option Text)
          → Named path parts
          → (o : Option (ImportFailure X)) → import_module parts.0 ≡ o
          → Answer path (imported modules parts)
      imported-Answer (name, obj) n none e = rw (e, imported) (found_in-Answer path name obj n e)
      imported-Answer (name, obj) n (some failure) e =
          rw (e, imported)
            (no_import name obj failure (import_failure modules name failure) n e
              (import_failure-Fails modules name failure))
