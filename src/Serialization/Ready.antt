-- ===== src/Serialization/Ready.antt =====
-- What is registered when the serializers are set up (nameko/serialization.py).
use Prim.Native.String.{◌++◌ as ◌+++◌}
use nameko.Prelude.{
  String, string_eq, ◌≡◌, ◌⊎◌, inl, inr, true, false, Option, none, some, List, [], ◌∷◌, ◌++◌,
  Bool-cases, Option-cases, All, Among, first, later, refl, ap, subst,
}
use nameko.Prelude.Dict.{Dict}
use nameko.Exceptions.Registry.{Exc}
use nameko.Action.{Result, Result-cases, returned, raised}
use nameko.Web.Requests.{chain}
use nameko.Serialization.Rounds.{Registered, register_one-Registered}
use nameko.Serialization.{
  pop, import_from_path, Kwargs, Config, Kombu, unknown_format, register_one, register_all,
  check_known, serializer_of, accept_of, checked, setup,
}

chain-returned :
    {X A B : Type 0} (m : Result X A) (f : A → Result X B) (b : B)
    → chain m f ≡ returned b
    → (a : A) × (f a ≡ returned b)
chain-returned (returned a) f b e = (a, e)
chain-returned (raised exc) f b e = absurd (cc)

module _ {O K : Type 0} (kombu : Kombu O K) where
  open kombu use {locate, register, knows}

  -- What kombu promises of `register`: the name is known afterwards, and no name is forgotten.
  pub record Registers : Type 0 where
    pub known :
        (name : String) (encoder decoder : Option O) (kwargs : Kwargs) (k k' : K)
        → register name encoder decoder kwargs k ≡ returned k'
        → knows name k' ≡ true
    pub kept :
        (name other : String) (encoder decoder : Option O) (kwargs : Kwargs) (k k' : K)
        → register name encoder decoder kwargs k ≡ returned k'
        → knows other k ≡ true
        → knows other k' ≡ true

  abbrev pub AllKnown : Dict String Kwargs → K → Type 0
  AllKnown serializers k = All (λ item. knows item.0 k ≡ true) serializers

  -- The serializer that is chosen, and the names that are accepted with it: json by default, and just
  -- the serializer.
  abbrev pub Chosen : Option String → String → Type 0
  Chosen (some name) serializer = serializer ≡ name
  Chosen none serializer = serializer ≡ "json"

  abbrev pub Accepted : Option (List String) → String → List String → Type 0
  Accepted (some names) serializer accept = accept ≡ names
  Accepted none serializer accept = accept ≡ serializer ∷ []

  -- The registry that is left when all of these were registered, in this order.
  pub data Registrations : Dict String Kwargs → K → K → Type 0 where
    no_more : (k : K) → Registrations [] k k
    next :
        (name : String) (kwargs : Kwargs) (rest : Dict String Kwargs) (k k1 k2 : K)
        → Registered kombu name kwargs k (returned k1)
        → Registrations rest k1 k2
        → Registrations ((name, kwargs) ∷ rest) k k2

  -- How `setup` comes out, from the registry it starts with and with the one it leaves: everything
  -- that was configured was registered, and it is known with all that is returned; or one of the names
  -- is unknown, after everything was registered; or a serializer cannot be registered, after those
  -- before it were.
  pub data Settles (config : Config) (start k : K)
      : Result Exc (String × List String) → Type 0 where
    ready :
        (serializer : String) (accept : List String)
        → Chosen config.serializer serializer
        → Accepted config.accept serializer accept
        → Registrations config.serializers start k
        → AllKnown config.serializers k
        → All (λ name. knows name k ≡ true) (serializer ∷ accept)
        → Settles config start k (returned (serializer, accept))
    unregistered :
        (serializer : String) (accept : List String) (name : String)
        → Chosen config.serializer serializer
        → Accepted config.accept serializer accept
        → Registrations config.serializers start k
        → AllKnown config.serializers k
        → Among name (serializer ∷ accept)
        → knows name k ≡ false
        → (exc : Exc)
        → exc.as_text ≡ some ("Please register a serializer for \"" +++ (name +++ "\" format"))
        → Settles config start k (raised exc)
    not_loaded :
        (earlier later : Dict String Kwargs) (name : String) (kwargs : Kwargs) (exc : Exc)
        → config.serializers ≡ earlier ++ (name, kwargs) ∷ later
        → Registrations earlier start k
        → AllKnown earlier k
        → Registered kombu name kwargs k (raised exc)
        → Settles config start k (raised exc)

  serializer_of-Chosen : (config : Config) → Chosen config.serializer (serializer_of kombu config)
  serializer_of-Chosen config = elim (Option-cases config.serializer) [
    | inl missing ↦ rw missing refl
    | inr (name, given) ↦ rw given refl
  ]

  accept_of-Accepted :
      (config : Config)
      → Accepted config.accept (serializer_of kombu config) (accept_of kombu config)
  accept_of-Accepted config = elim (Option-cases config.accept) [
    | inl missing ↦ rw missing refl
    | inr (names, given) ↦ rw given refl
  ]

  check_known_lem :
      (names : List String) (k : K)
      → ((check_known kombu names k ≡ returned tt) × All (λ name. knows name k ≡ true) names)
        ⊎ ((name : String) × (check_known kombu names k ≡ raised (unknown_format name))
            × Among name names
            × (knows name k ≡ false))
  unfolding check_known
  check_known_lem [] k = inl (refl, tt)
  check_known_lem (n ∷ names) k = elim (Bool-cases (knows n k)) [
    | inr unknown ↦ inr (n, rw unknown refl, first n names refl, unknown)
    | inl is_known ↦ elim (check_known_lem names k) [
      | inl (e, all) ↦ inl (rw is_known e, (is_known, all))
      | inr (name, e, h, unknown) ↦ inr (name, rw is_known e, later n names h, unknown)
    ]
  ]

  -- `register_one` returns only what `register` returned.
  register_one-registers :
      (name : String) (kwargs : Kwargs) (k k' : K)
      → register_one kombu name kwargs k ≡ returned k'
      → (encoder : Option O) × (decoder : Option O) × (left : Kwargs) × (register name encoder
            decoder left k
          ≡ returned k')
  unfolding register_one
  register_one-registers name kwargs k k' e =
      let (encoder_path, e1) = chain-returned (pop "encoder" kwargs) _ k' e in
      let (encoder, e2) = chain-returned (import_from_path locate encoder_path.0) _ k' e1 in
      let (decoder_path, e3) = chain-returned (pop "decoder" encoder_path.1) _ k' e2 in
      let (decoder, e4) = chain-returned (import_from_path locate decoder_path.0) _ k' e3 in
      (encoder, decoder, decoder_path.1, e4)

  abbrev Keeps : K → K → Type 0
  Keeps k k' = (n : String) → knows n k ≡ true → knows n k' ≡ true

  -- What the loop over the serializers comes to, with the registry that it leaves.
  data Loads (d : Dict String Kwargs) (k k' : K) : Result Exc Unit → Type 0 where
    loaded : Registrations d k k' → AllKnown d k' → Loads d k k' (returned tt)
    failed :
        (before after : Dict String Kwargs) (name : String) (kwargs : Kwargs) (exc : Exc)
        → d ≡ before ++ (name, kwargs) ∷ after
        → Registrations before k k'
        → AllKnown before k'
        → Registered kombu name kwargs k' (raised exc)
        → Loads d k k' (raised exc)

  Loads-later :
      (name : String) (kwargs : Kwargs) (d : Dict String Kwargs) (k k1 k' : K) (r : Result Exc Unit)
      → Registered kombu name kwargs k (returned k1)
      → knows name k' ≡ true
      → Loads d k1 k' r
      → Loads ((name, kwargs) ∷ d) k k' r
  Loads-later name kwargs d k k1 k' r it known (loaded runs all) =
      loaded (next name kwargs d k k1 k' it runs) (known, all)
  Loads-later name kwargs d k k1 k' r it known (failed before after n kw exc split runs all e) =
      failed ((name, kwargs) ∷ before) after n kw exc (ap (λ l. (name, kwargs) ∷ l) split)
        (next name kwargs before k k1 k' it runs) (known, all) e

  register_all-Loads :
      Registers
      → (d : Dict String Kwargs) (k : K)
      → Keeps k (register_all kombu d k).1
        × Loads d k (register_all kombu d k).1 (register_all kombu d k).0
  unfolding register_all
  register_all-Loads registers [] k = (λ n h. h, loaded (no_more k) tt)
  register_all-Loads registers ((name, kwargs) ∷ d) k =
      elim (Result-cases (register_one kombu name kwargs k)) [
        | inl (exc, e) ↦
            rw (e, register_all)
              (
                (λ n h. h),
                failed [] d name kwargs exc refl (no_more k) tt (
                    subst (Registered kombu name kwargs k) e
                      (register_one-Registered kombu name kwargs k)),
              )
        | inr (k1, e) ↦
            let (encoder, decoder, left, it) = register_one-registers name kwargs k k1 e in
            let (keeps, loads) = register_all-Loads registers d k1 in
            rw (e, register_all)
              (
                λ n h. keeps n (registers.kept name n encoder decoder left k k1 it h),
                Loads-later name kwargs d k k1 _ _
                    (subst (Registered kombu name kwargs k) e
                      (register_one-Registered kombu name kwargs k))
                    (keeps name (registers.known name encoder decoder left k k1 it)) loads,
              )
      ]

  -- Let kombu's `register` keep its promise. Setting up the serializers registers the configured
  -- serializers in order, each with the encoder and the decoder at its paths and with its other
  -- options. It returns the configured serializer, or json, and the accepted names, or just that one,
  -- when all of them and all configured serializers are known then. Else it raises: what the first
  -- serializer that cannot be registered raises, for an option that is missing or cannot be imported
  -- or from `register`, after those before it were registered; or an error with a name that is asked
  -- for but unknown, after all were.
  pub setup-Settles :
      Registers
      → (config : Config) (k : K)
      → Settles config k (setup kombu config k).1 (setup kombu config k).0
  unfolding setup
  setup-Settles registers config k =
      checked-Settles (register_all kombu config.serializers k)
        (register_all-Loads registers config.serializers k).1
    where
      checked-Settles :
          (out : Result Exc Unit × K)
          → Loads config.serializers k out.1 out.0
          → Settles config k (checked kombu config out).1 (checked kombu config out).0
      checked-Settles (raised exc, k') (failed before after name kwargs _ it runs all e) =
          not_loaded before after name kwargs exc it runs all e
      checked-Settles (returned _, k') (loaded runs all) =
          let s = serializer_of kombu config in
          let l = accept_of kombu config in
          elim (check_known_lem (s ∷ l) k') [
            | inl (e, known) ↦
                rw e (
                  ready s l (serializer_of-Chosen config) (accept_of-Accepted config) runs all
                    known)
            | inr (name, e, h, unknown) ↦ rw e (
                unregistered s l name (serializer_of-Chosen config) (accept_of-Accepted config) runs
                  all h unknown (unknown_format name) refl)
          ]
