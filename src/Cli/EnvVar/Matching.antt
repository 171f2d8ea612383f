-- ===== src/Cli/EnvVar/Matching.antt =====
-- What the pattern of an environment variable matches (nameko/cli/main.py).
use nameko.Prelude.Scan.{Text, take_while, drop_while, Chars, take_while-Chars, take_while_stops}
use nameko.Prelude.{
  ℕ, ◌+◌, ◌-◌, ◌≡◌, Bool, false, Option, none, some, [], ◌∷◌, ◌++◌, length, arith, refl,
}
use nameko.Cli.EnvVar.{
  dollar, brace, unbrace, colon, is_inside, is_name_char, Found, skip_colon, group, closed, named,
  match_var, closes, implicit_match, text_or_empty,
}

-- A default holds no brace that closes, so the loop of `_replace_env_var` is not entered.
closes_never : (cs : Text) → Chars is_inside cs → closes cs ≡ false
closes_never [] h = refl
closes_never (c ∷ cs) h = ground (arith, h.0, closes_never cs h.1)

pub implicit_never : (cs : Text) → Chars is_inside cs → implicit_match cs ≡ false
unfolding implicit_match
implicit_never [] h = refl
implicit_never (c ∷ []) h = refl
implicit_never (c ∷ d ∷ cs) h = ground (arith, implicit_never (d ∷ cs) h.1, closes_never cs h.1.1)

group-Chars : (cs : Text) → Chars is_inside cs → Chars is_inside (text_or_empty (group cs))
group-Chars [] h = tt
group-Chars (c ∷ cs) h = h

closed-default :
    (name default rest : Text) (size : ℕ) (m : Found)
    → Chars is_inside default
    → closed name default rest size ≡ some m
    → Chars is_inside (text_or_empty m.default)
closed-default name default [] size m h e = absurd (cc)
closed-default name default (c ∷ after) size m h e =
    let it : m.default ≡ group default = ground (arith, e) in rw it (group-Chars default h)

named-default :
    (is_space : ℕ → Bool) (name cs : Text) (m : Found)
    → named is_space name cs ≡ some m
    → Chars is_inside (text_or_empty m.default)
named-default is_space [] cs m e = absurd (cc)
named-default is_space (n ∷ name) cs m e =
    let rest = skip_colon (drop_while (is_name_char is_space) cs) in
    closed-default (n ∷ name) (take_while is_inside rest) (drop_while is_inside rest)
      (2 + length cs) m (take_while-Chars is_inside rest) e

match_var-named :
    (is_space : ℕ → Bool) (c d : ℕ) (cs : Text) (m : Found)
    → match_var is_space (c ∷ d ∷ cs) ≡ some m
    → named is_space (take_while (is_name_char is_space) cs) cs ≡ some m
unfolding match_var
match_var-named is_space c d cs m e = ground (arith, e)

pub match_var-default :
    (is_space : ℕ → Bool) (cs : Text) (m : Found)
    → match_var is_space cs ≡ some m
    → Chars is_inside (text_or_empty m.default)
unfolding match_var
match_var-default is_space [] m e = absurd (cc)
match_var-default is_space (c ∷ []) m e = absurd (cc)
match_var-default is_space (c ∷ d ∷ cs) m e =
    named-default is_space (take_while (is_name_char is_space) cs) cs m
      (match_var-named is_space c d cs m e)

-- The groups of a match of a variable that is written out.
abbrev pub default_group : Option Text → Option Text
default_group none = none
default_group (some default) = group default

-- What follows the name, and then a rest.
abbrev pub tail_of : Option Text → Text → Text
tail_of none rest = unbrace ∷ rest
tail_of (some default) rest = colon ∷ (default ++ (unbrace ∷ rest))

named_written :
    (is_space : ℕ → Bool) (n : ℕ) (name : Text) (default : Option Text) (rest : Text)
    → Chars (is_name_char is_space) (n ∷ name)
    → Chars is_inside (text_or_empty default)
    → let cs = (n ∷ name) ++ tail_of default rest in
      (take_while (is_name_char is_space) cs ≡ n ∷ name)
      × (named is_space (n ∷ name) cs
          ≡ some (record {
            env_var = n ∷ name;
            default = default_group default;
            size = (2 + length cs) - length rest;
          }))
unfolding take_while drop_while
named_written is_space n name none rest h k =
    let (t, d) = take_while_stops (is_name_char is_space) (n ∷ name) rest unbrace h refl in
    (t, ground (arith, d))
named_written is_space n name (some default) rest h k =
    let (t, d) =
      take_while_stops (is_name_char is_space) (n ∷ name) (default ++ (unbrace ∷ rest)) colon h
        refl in
    let (t', d') = take_while_stops is_inside default rest unbrace k refl in
    (t, ground (arith, d, t', d'))

-- A variable that is written out is matched from its first character to its closing brace.
pub match_var_written :
    (is_space : ℕ → Bool) (n : ℕ) (name : Text) (default : Option Text) (rest : Text)
    → Chars (is_name_char is_space) (n ∷ name)
    → Chars is_inside (text_or_empty default)
    → match_var is_space (dollar ∷ brace ∷ ((n ∷ name) ++ tail_of default rest))
      ≡ some (record {
        env_var = n ∷ name;
        default = default_group default;
        size = (2 + length ((n ∷ name) ++ tail_of default rest)) - length rest;
      })
unfolding match_var
match_var_written is_space n name default rest h k =
    let (t, m) = named_written is_space n name default rest h k in rw t m
