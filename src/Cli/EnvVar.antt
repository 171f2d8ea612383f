-- ===== src/Cli/EnvVar.antt =====
-- `ENV_VAR_MATCHER`, `_replace_env_var` and `env_var_constructor` of nameko/cli/main.py, with the
-- pattern for the `re` module. Texts are lists of code points.
pub mod Filled
pub mod Matching
use nameko.Prelude.Scan.{Text, take_while, drop_while, Chars, take_while-Chars, take_while_stops}
use nameko.Prelude.{
  ℕ, suc, zero, ◌+◌, ◌-◌, Bool, true, false, not, ◌&&◌, ◌||◌, Option, none, some, List, [], ◌∷◌,
  ◌++◌, nat_eq, length, if◌then◌else◌,
}

abbrev pub dollar : ℕ
dollar = b'$'

abbrev pub brace : ℕ
brace = b'{'

abbrev pub unbrace : ℕ
unbrace = b'}'

abbrev pub colon : ℕ
colon = b':'

abbrev pub is_inside : ℕ → Bool
is_inside c = not (nat_eq c unbrace)

abbrev pub is_name_char : (ℕ → Bool) → ℕ → Bool
is_name_char is_space c = not (nat_eq c unbrace) && (not (nat_eq c colon) && not (is_space c))

-- A match: its groups, and how many characters it has.
pub record Found : Type 0 where
  pub env_var : Text
  pub default : Option Text
  pub size : ℕ

-- `:?`
abbrev pub skip_colon : Text → Text
skip_colon [] = []
skip_colon (c ∷ cs) = if nat_eq c colon then cs else c ∷ cs

abbrev pub group : Text → Option Text
group [] = none
group (c ∷ cs) = some (c ∷ cs)

abbrev closed : Text → Text → Text → ℕ → Option Found
closed name default [] size = none
closed name default (c ∷ after) size =
    some (record { env_var = name; default = group default; size = size - length after })

abbrev named : (ℕ → Bool) → Text → Text → Option Found
named is_space [] cs = none
named is_space (n ∷ name) cs =
    let rest = skip_colon (drop_while (is_name_char is_space) cs) in
    closed (n ∷ name) (take_while is_inside rest) (drop_while is_inside rest) (2 + length cs)

-- `ENV_VAR_MATCHER.match`: each group takes as much as it can, which is the match if there is one.
unfoldable pub match_var : (ℕ → Bool) → Text → Option Found
unfolding take_while drop_while
match_var is_space [] = none
match_var is_space (c ∷ []) = none
match_var is_space (c ∷ d ∷ cs) =
    if nat_eq c dollar && nat_eq d brace
    then named is_space (take_while (is_name_char is_space) cs) cs
    else none

abbrev pub join : Option Text → Option Text → Option Text
join none rest = none
join (some value) none = none
join (some value) (some rest) = some (value ++ rest)

-- `ENV_VAR_MATCHER.sub(replace, text)`, with the number of characters still to be skipped.
unfoldable pub sub : (ℕ → Bool) → (Found → Option Text) → ℕ → Text → Option Text
sub is_space replace skip [] = some []
sub is_space replace (suc skip) (c ∷ cs) = sub is_space replace skip cs
sub is_space replace zero (c ∷ cs) = elim (match_var is_space (c ∷ cs)) [
  | none ↦ join (some (c ∷ [])) (sub is_space replace zero cs)
  | some m ↦ join (replace m) (sub is_space replace (m.size - 1) cs)
]

abbrev pub newline : ℕ
newline = 10

-- `.*\}` on the rest of a line
abbrev closes : Text → Bool
closes [] = false
closes (c ∷ cs) = nat_eq c unbrace || (not (nat_eq c newline) && closes cs)

-- `IMPLICIT_ENV_VAR_MATCHER.match`
unfoldable pub implicit_match : Text → Bool
implicit_match [] = false
implicit_match (c ∷ []) = false
implicit_match (c ∷ d ∷ cs) =
    (nat_eq c dollar && (nat_eq d brace && closes cs))
    || (not (nat_eq c newline) && implicit_match (d ∷ cs))

abbrev text_or_empty : Option Text → Text
text_or_empty none = []
text_or_empty (some default) = default

module _ (is_space : ℕ → Bool) (environ : Text → Option Text) where
  abbrev replace_with : (Text → Option Text) → Found → Option Text
  replace_with expand m = elim (environ m.env_var) [
    | some value ↦ some value
    | none ↦ expand (text_or_empty m.default)
  ]

  abbrev then_expand : (Text → Option Text) → Option Text → Option Text
  then_expand expand none = none
  then_expand expand (some value) = expand value

  -- The loop of `_replace_env_var`, on fuel; `none` if it runs out.
  unfoldable pub expand : ℕ → Text → Option Text
  unfolding sub implicit_match
  expand zero value = none
  expand (suc fuel) value =
      let again =
        then_expand (expand fuel) (sub is_space (replace_with (expand fuel)) zero value) in
      if implicit_match value then again else some value

  unfoldable pub replace_env_var : ℕ → Found → Option Text
  unfolding expand
  replace_env_var fuel m = replace_with (expand fuel) m

  -- `env_var_constructor` on the text of a scalar, with `raw`. One round of fuel is enough.
  unfoldable pub env_var_constructor : Text → Option Text
  unfolding replace_env_var sub
  env_var_constructor text = sub is_space (replace_env_var 1) zero text
