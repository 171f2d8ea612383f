-- ===== src/Cli/EnvVar/Filled.antt =====
-- How the environment variables in a text are filled in (nameko/cli/main.py).
use nameko.Prelude.Scan.{Text, Chars}
use nameko.Prelude.{
  ℕ, suc, zero, ◌+◌, ◌-◌, ◌≡◌, inl, inr, Bool, true, not, Option, none, some, List, [], ◌∷◌, ◌++◌,
  nat_eq, length, arith, refl, ap, sym, ◌∙◌, All, Option-cases, length-append,
}
use mathlib.Core.List.{append_assoc}
use nameko.Cli.EnvVar.{
  Text, dollar, brace, unbrace, colon, is_inside, is_name_char, Found, match_var, join, sub,
  text_or_empty, expand, replace_env_var, env_var_constructor,
}
use nameko.Cli.EnvVar.Matching.{
  implicit_never, match_var-default, default_group, tail_of, match_var_written,
}

-- A text with variables in it.
pub data Segment : Type 0 where
  literal : Text → Segment
  variable : Text → Option Text → Segment

-- A segment as it is written, before a rest.
abbrev pub written : Segment → Text → Text
written (literal text) rest = text ++ rest
written (variable name default) rest = dollar ∷ brace ∷ (name ++ tail_of default rest)

abbrev pub write_all : List Segment → Text
write_all [] = []
write_all (s ∷ segments) = written s (write_all segments)

-- A literal has no dollar sign; a name is not empty, and has no colon, closing brace or space in it;
-- a default has no closing brace.
abbrev pub IsPlain : (ℕ → Bool) → Segment → Type 0
IsPlain is_space (literal text) = Chars (λ c. not (nat_eq c dollar)) text
IsPlain is_space (variable [] default) = ⊥
IsPlain is_space (variable (n ∷ name) default) =
    Chars (is_name_char is_space) (n ∷ name) × Chars is_inside (text_or_empty default)

tail_of-append :
    (default : Option Text) (rest : Text) → tail_of default rest ≡ tail_of default [] ++ rest
tail_of-append none rest = refl
tail_of-append (some default) rest =
    ap (λ t. colon ∷ t) (sym (append_assoc default (unbrace ∷ []) rest))

module _ (is_space : ℕ → Bool) (environ : Text → Option Text) where
  -- What is filled in: the variable, or else its default, or else nothing.
  abbrev pub value_of : Text → Option Text → Text
  value_of name default = elim (environ name) [ some value ↦ value | none ↦ text_or_empty default ]

  replace-value :
      (fuel : ℕ) (m : Found)
      → Chars is_inside (text_or_empty m.default)
      → replace_env_var is_space environ (suc fuel) m ≡ some (value_of m.env_var m.default)
  unfolding replace_env_var expand
  replace-value fuel m h = ground (arith, implicit_never (text_or_empty m.default) h)

  -- The scan ends, if every match is replaced.
  sub_total :
      (skip : ℕ) (cs : Text)
      → (value : Text) × (sub is_space (replace_env_var is_space environ 1) skip cs ≡ some value)
  unfolding sub
  sub_total skip [] = ([], refl)
  sub_total (suc skip) (c ∷ cs) = sub_total skip cs
  sub_total zero (c ∷ cs) = elim (Option-cases (match_var is_space (c ∷ cs))) [
    | inl e ↦ let (value, r) = sub_total zero cs in (c ∷ value, ground (arith, e, r))
    | inr (m, e) ↦
        let (value, r) = sub_total (m.size - 1) cs in
        let v = replace-value 0 m (match_var-default is_space (c ∷ cs) m e) in
        (value_of m.env_var m.default ++ value, ground (arith, e, v, r))
  ]

  abbrev pub filled : Segment → Text
  filled (literal text) = text
  filled (variable name default) = value_of name default

  abbrev pub fill_all : List Segment → Text
  fill_all [] = []
  fill_all (s ∷ segments) = filled s ++ fill_all segments

  sub_skip :
      (replace : Found → Option Text) (xs ys : Text)
      → sub is_space replace (length xs) (xs ++ ys) ≡ sub is_space replace zero ys
  unfolding sub
  sub_skip replace [] ys = refl
  sub_skip replace (x ∷ xs) ys = sub_skip replace xs ys

  sub_literal :
      (replace : Found → Option Text) (xs ys value : Text)
      → Chars (λ c. not (nat_eq c dollar)) xs
      → sub is_space replace zero ys ≡ some value
      → sub is_space replace zero (xs ++ ys) ≡ some (xs ++ value)
  unfolding sub match_var
  sub_literal replace [] ys value h e = e
  sub_literal replace (x ∷ xs) ys value h e =
      ground (arith, h.0, sub_literal replace xs ys value h.1 e, no_match x (xs ++ ys) h.0)
    where
      no_match :
          (c : ℕ) (cs : Text) → not (nat_eq c dollar) ≡ true → match_var is_space (c ∷ cs) ≡ none
      no_match c [] n = refl
      no_match c (d ∷ cs) n = ground (arith, n)

  sub_found :
      (replace : Found → Option Text) (c : ℕ) (cs : Text) (m : Found)
      → match_var is_space (c ∷ cs) ≡ some m
      → sub is_space replace zero (c ∷ cs) ≡ join (replace m) (sub is_space replace (m.size - 1) cs)
  unfolding sub
  sub_found replace c cs m e = rw (e, sub)

  group_kept :
      (default : Option Text)
      → Chars is_inside (text_or_empty default)
      → Chars is_inside (text_or_empty (default_group default))
  group_kept none h = tt
  group_kept (some []) h = tt
  group_kept (some (c ∷ cs)) h = h

  value_group :
      (name : Text) (default : Option Text)
      → value_of name (default_group default) ≡ value_of name default
  value_group name none = refl
  value_group name (some []) = refl
  value_group name (some (c ∷ cs)) = refl

  sub_variable :
      (n : ℕ) (name : Text) (default : Option Text) (ys value : Text)
      → Chars (is_name_char is_space) (n ∷ name)
      → Chars is_inside (text_or_empty default)
      → sub is_space (replace_env_var is_space environ 1) zero ys ≡ some value
      → sub is_space
          (replace_env_var is_space environ 1)
          zero
          (written (variable (n ∷ name) default) ys)
        ≡ some (value_of (n ∷ name) default ++ value)
  sub_variable n name default ys value h k e =
      let body = brace ∷ ((n ∷ name) ++ tail_of default []) in
      let split : brace ∷ ((n ∷ name) ++ tail_of default ys) ≡ body ++ ys =
        rw (tail_of-append default ys)
          (ap (λ t. brace ∷ n ∷ t) (sym (append_assoc name (tail_of default []) ys))) in
      let m = match_var_written is_space n name default ys h k in
      let skips : ((2 + length ((n ∷ name) ++ tail_of default ys)) - length ys) - 1 ≡ length body =
        omega (arith, ap length split, length-append body ys) in
      let found =
        replace-value 0
          (record {
            env_var = n ∷ name;
            default = default_group default;
            size = (2 + length ((n ∷ name) ++ tail_of default ys)) - length ys;
          })
          (group_kept default k) in
      sub_found (replace_env_var is_space environ 1) dollar
        (brace ∷ ((n ∷ name) ++ tail_of default ys))
        (record {
          env_var = n ∷ name;
          default = default_group default;
          size = (2 + length ((n ∷ name) ++ tail_of default ys)) - length ys;
        })
        m
      ∙ rw (found, skips, split, sub_skip (replace_env_var is_space environ 1) body ys, e)
          (ap (λ t. some (t ++ value)) (value_group (n ∷ name) default))

  -- Every text has a value: the loop that fills in the variables of a default always ends.
  pub env_var_constructor_total :
      (text : Text) → (value : Text) × (env_var_constructor is_space environ text ≡ some value)
  unfolding env_var_constructor
  env_var_constructor_total text = sub_total zero text

  sub_written :
      (segments : List Segment)
      → All (IsPlain is_space) segments
      → sub is_space (replace_env_var is_space environ 1) zero (write_all segments)
        ≡ some (fill_all segments)
  unfolding sub
  sub_written [] h = refl
  sub_written (literal text ∷ segments) h =
      sub_literal (replace_env_var is_space environ 1) text (write_all segments) (fill_all segments)
        h.0 (sub_written segments h.1)
  sub_written (variable [] default ∷ segments) h = absurd h.0
  sub_written (variable (n ∷ name) default ∷ segments) h =
      sub_variable n name default (write_all segments) (fill_all segments) h.0.0 h.0.1
        (sub_written segments h.1)

  -- A text that is written with variables in it comes out with each variable replaced by its value,
  -- or, if it is not set, by its default, or by nothing if it has none; and all else as it is.
  pub env_var_constructor-fill_all :
      (segments : List Segment)
      → All (IsPlain is_space) segments
      → env_var_constructor is_space environ (write_all segments) ≡ some (fill_all segments)
  unfolding env_var_constructor
  env_var_constructor-fill_all segments h = sub_written segments h
