-- ===== src/Web/Server.antt =====
-- nameko/web/server.py: the address that the server binds, its life, and how a request finds the
-- provider that handles it.
pub mod Address
pub mod Wsgi
use nameko.Prelude.Scan.{Text, take_while, drop_while}
use nameko.Prelude.{
  ℕ, ◌+◌, ◌*◌, Bool, true, false, not, Option, none, some, List, [], ◌∷◌, nat_eq, if◌then◌else◌,
  map,
}
use nameko.Action.{Result, returned, raised}

abbrev pub colon : ℕ
colon = b':'

abbrev pub newline : ℕ
newline = 10

-- `[^:]`
abbrev pub not_colon : ℕ → Bool
not_colon c = not (nat_eq c colon)

pub record BindAddress : Type 0 where
  pub address : Text
  pub port : ℕ

-- ConfigurationError, with the text in its message.
pub data AddressError : Type 0 where
  misconfigured : Text → AddressError

-- `$`, where the rest holds no digit: the end, or a line break that ends the text.
abbrev at_end : ℕ → Text → Option ℕ
at_end value [] = some value
at_end value (c ∷ cs) = none

abbrev line_end : ℕ → ℕ → Text → Option ℕ
line_end value c cs = if nat_eq c newline then at_end value cs else none

-- What a character counts as a digit, for `\d` and for `int`.
module _ (digit : ℕ → Option ℕ) where
  -- `\d*$`, after digits of a value, and `int` of all of them.
  unfoldable pub number : ℕ → Text → Option ℕ
  number value [] = some value
  number value (c ∷ cs) = elim (digit c) [
    | some d ↦ number (value * 10 + d) cs
    | none ↦ line_end value c cs
  ]

  -- `(?P<port>\d+)$`
  abbrev pub match_port : Text → Option ℕ
  match_port [] = none
  match_port (c ∷ cs) = elim (digit c) [ some d ↦ number d cs | none ↦ none ]

  abbrev bound_to : Text → Option ℕ → Option BindAddress
  bound_to address none = none
  bound_to address (some port) = some (record { address = address; port = port })

  -- The pattern with its optional group
  abbrev with_address : Text → Text → Option BindAddress
  with_address [] rest = none
  with_address (a ∷ address) [] = none
  with_address (a ∷ address) (c ∷ rest) = bound_to (a ∷ address) (match_port rest)

  abbrev match_or : Option BindAddress → Option BindAddress → Option BindAddress
  match_or (some b) other = some b
  match_or none other = other

  abbrev or_misconfigured : Text → Option BindAddress → Result AddressError BindAddress
  or_misconfigured text none = raised (misconfigured text)
  or_misconfigured text (some b) = returned b

  -- `address_re.match`
  abbrev pub match_address : Text → Option BindAddress
  match_address text =
      match_or (with_address (take_while not_colon text) (drop_while not_colon text))
        (bound_to [] (match_port text))

  unfoldable pub parse_address : Text → Result AddressError BindAddress
  unfolding number take_while drop_while
  parse_address text = or_misconfigured text (match_address text)
