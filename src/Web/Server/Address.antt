-- ===== src/Web/Server/Address.antt =====
-- The addresses that `parse_address` reads (nameko/web/server.py).
use nameko.Prelude.Scan.{
  Text, take_while, drop_while, Chars, take_while-Chars, take_while_stops, take_while-drop_while,
  drop_while_all, drop_while-first,
}
use nameko.Prelude.{
  ℕ, ◌+◌, ◌*◌, ◌≡◌, ◌⊎◌, inl, inr, false, Option, none, some, [], ◌∷◌, ◌++◌, arith, refl,
  Option-cases,
}
use nameko.Action.{returned, raised}
use mathlib.Core.Path.{sym, subst}
use nameko.Web.Server.{
  colon, newline, not_colon, BindAddress, misconfigured, line_end, number, match_port, bound_to,
  with_address, match_address, or_misconfigured, parse_address,
}

module _ (digit : ℕ → Option ℕ) where
  -- `Number value text n`: with digits of a value before it, a text is the number `n` in decimals,
  -- with a line break after it or not.
  pub data Number : ℕ → Text → ℕ → Type 0 where
    done : (n : ℕ) → Number n [] n
    line : (n : ℕ) → Number n (newline ∷ []) n
    next :
        (value c d n : ℕ) (cs : Text)
        → digit c ≡ some d
        → Number (value * 10 + d) cs n
        → Number value (c ∷ cs) n

  -- A port has a digit at least.
  pub record IsPort (text : Text) (port : ℕ) : Type 0 where
    pub first : ℕ
    pub value : ℕ
    pub rest : Text
    pub splits : text ≡ first ∷ rest
    pub starts : digit first ≡ some value
    pub goes_on : Number value rest port

  -- A port, or a text without a colon, which is not empty, a colon and a port.
  pub data IsAddress : Text → BindAddress → Type 0 where
    port_only :
        (text : Text) (port : ℕ)
        → IsPort text port
        → IsAddress text (record { address = []; port = port })
    both :
        (a : ℕ) (address text : Text) (port : ℕ)
        → Chars not_colon (a ∷ address)
        → IsPort text port
        → IsAddress (a ∷ address ++ colon ∷ text) (record { address = a ∷ address; port = port })

  module _ (no_line : digit newline ≡ none) where
    number-reads :
        (value : ℕ) (cs : Text) (n : ℕ) → Number value cs n → number digit value cs ≡ some n
    unfolding number
    number-reads value cs n (done _) = refl
    number-reads value cs n (line _) = ground (arith, no_line)
    number-reads value (c ∷ cs) n (next _ _ d _ _ h more) =
        ground (arith, h, number-reads (value * 10 + d) cs n more)

    match_port-reads :
        (text : Text) (port : ℕ) → IsPort text port → match_port digit text ≡ some port
    match_port-reads text port p =
        rw p.splits (ground (arith, p.starts, number-reads p.value p.rest port p.goes_on))

  line_end-finds :
      (value c : ℕ) (cs : Text) (n : ℕ) → line_end value c cs ≡ some n → Number value (c ∷ cs) n
  line_end-finds value c [] n e =
      let it : (c ≡ newline) × (value ≡ n) = (ground (arith, e), ground (arith, e)) in
      subst (λ x. Number value (x ∷ []) n) (sym it.0)
        (subst (λ m. Number value (newline ∷ []) m) it.1 (line value))
  line_end-finds value c (x ∷ cs) n e = absurd (ground (arith, e))

  number-finds :
      (value : ℕ) (cs : Text) (n : ℕ) → number digit value cs ≡ some n → Number value cs n
  unfolding number
  number-finds value [] n e =
      let it : value ≡ n = ground (arith, e) in subst (λ m. Number value [] m) it (done value)
  number-finds value (c ∷ cs) n e = elim (Option-cases (digit c)) [
    | inr (d, h) ↦ next value c d n cs h (number-finds (value * 10 + d) cs n (ground (arith, h, e)))
    | inl h ↦ line_end-finds value c cs n (ground (arith, h, e))
  ]

  match_port-finds : (text : Text) (port : ℕ) → match_port digit text ≡ some port → IsPort text port
  match_port-finds [] port e = absurd (cc)
  match_port-finds (c ∷ cs) port e = elim (Option-cases (digit c)) [
    | inr (d, h) ↦ record {
      first = c;
      value = d;
      rest = cs;
      splits = refl;
      starts = h;
      goes_on = number-finds d cs port (ground (arith, h, e));
    }
    | inl h ↦ absurd (ground (arith, h, e))
  ]

  bound_to-finds :
      (address text : Text) (b : BindAddress)
      → bound_to digit address (match_port digit text) ≡ some b
      → (port : ℕ) × IsPort text port × (record { address = address; port = port } ≡ b)
  bound_to-finds address text b e = elim (Option-cases (match_port digit text)) [
    | inr (port, h) ↦ (port, match_port-finds text port h, ground (arith, h, e))
    | inl h ↦ absurd (ground (arith, h, e))
  ]

  with_address-finds :
      (address rest : Text) (b : BindAddress)
      → Chars not_colon address
      → ((c : ℕ) (ds : Text) → rest ≡ c ∷ ds → not_colon c ≡ false)
      → with_address digit address rest ≡ some b
      → IsAddress (address ++ rest) b
  with_address-finds [] rest b h first e = absurd (cc)
  with_address-finds (a ∷ address) [] b h first e = absurd (cc)
  with_address-finds (a ∷ address) (c ∷ rest) b h first e =
      let (port, is_port, it) = bound_to-finds (a ∷ address) rest b e in
      let at_colon : c ≡ colon = ground (arith, first c rest refl) in
      subst (λ x. IsAddress (a ∷ address ++ x ∷ rest) b) (sym at_colon)
        (subst (λ r. IsAddress (a ∷ address ++ colon ∷ rest) r) it
          (both a address rest port h is_port))

  with_address-none : (address : Text) → with_address digit address [] ≡ none
  with_address-none [] = refl
  with_address-none (a ∷ address) = refl

  or_misconfigured_cases :
      (text : Text) (o : Option BindAddress)
      → ((b : BindAddress) × (or_misconfigured digit text o ≡ returned b))
        ⊎ (or_misconfigured digit text o ≡ raised (misconfigured text))
  or_misconfigured_cases text none = inr refl
  or_misconfigured_cases text (some b) = inl (b, refl)

  module _ (no_colon : digit colon ≡ none) (no_line : digit newline ≡ none) where
    Number-Chars : (value : ℕ) (cs : Text) (n : ℕ) → Number value cs n → Chars not_colon cs
    Number-Chars value cs n (done _) = tt
    Number-Chars value cs n (line _) = (refl, tt)
    Number-Chars value (c ∷ cs) n (next _ _ d _ _ h more) =
        (ground (arith, no_colon, h), Number-Chars (value * 10 + d) cs n more)

    IsPort-Chars : (text : Text) (port : ℕ) → IsPort text port → Chars not_colon text
    IsPort-Chars text port p =
        rw p.splits
          ((ground (arith, no_colon, p.starts), Number-Chars p.value p.rest port p.goes_on))

    parse_address-takes :
        (text : Text) (b : BindAddress) → IsAddress text b → parse_address digit text ≡ returned b
    unfolding parse_address
    parse_address-takes text b (port_only _ port p) =
        let no_rest = drop_while_all not_colon text (IsPort-Chars text port p) in
        let read = match_port-reads no_line text port p in
        rw (no_rest, with_address-none (take_while not_colon text), read) refl
    parse_address-takes _ b (both a address text port h p) =
        let (taken, left) = take_while_stops not_colon (a ∷ address) text colon h refl in
        rw (taken, left, match_port-reads no_line text port p) refl

    parse_address-finds :
        (text : Text) (b : BindAddress) → parse_address digit text ≡ returned b → IsAddress text b
    unfolding parse_address
    parse_address-finds text b e =
        let address = take_while not_colon text in
        let rest = drop_while not_colon text in
        elim (Option-cases (with_address digit address rest)) [
          | inr (r, h) ↦
              let it : r ≡ b = ground (arith, h, e) in
              subst (λ x. IsAddress x b) (take_while-drop_while not_colon text)
                (with_address-finds address rest b (take_while-Chars not_colon text)
                  (λ c ds. drop_while-first not_colon c text ds) (ground (arith, h, it)))
          | inl h ↦
              let (port, is_port, it) = bound_to-finds [] text b (ground (arith, h, e)) in
              subst (λ r. IsAddress text r) it (port_only text port is_port)
        ]

    -- Let a colon and a line break be no digits. A text is read as an address if and only if it is
    -- one, as the address that it is; of every other text an error is raised with that text.
    pub parse_address-reads :
        (text : Text)
        → ((b : BindAddress) × IsAddress text b × (parse_address digit text ≡ returned b))
          ⊎ (((b : BindAddress) → ¬ IsAddress text b)
              × (parse_address digit text ≡ raised (misconfigured text)))
    unfolding parse_address
    parse_address-reads text = elim (or_misconfigured_cases text (match_address digit text)) [
      | inl (b, e) ↦ inl (b, parse_address-finds text b e, e)
      | inr e ↦
          inr (λ b is_address. absurd (ground (arith, e, parse_address-takes text b is_address)), e)
    ]
