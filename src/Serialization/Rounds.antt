-- ===== src/Serialization/Rounds.antt =====
-- What a round of the loop over the serializers registers or raises (nameko/serialization.py), stated
-- on the options as they are configured.
use Prim.Native.String.{◌++◌}
use nameko.Prelude.{
  String, string_eq, ◌≡◌, ◌⊎◌, inl, inr, Option, none, some, Option-cases, refl, arith,
}
use nameko.Prelude.Dict.{get, remove, get-remove}
use nameko.Exceptions.Registry.{Exc}
use nameko.Rpc.Server.{builtin}
use nameko.Action.{Result, raised}
use nameko.Web.Requests.{chain}
use nameko.Serialization.{
  key_error, not_importable, pop, import_from_path, Kwargs, Kombu, register_one,
}

module _ {O K : Type 0} (kombu : Kombu O K) where
  open kombu use {locate, register}

  -- The object that an option stands for: none, or the one at its path.
  pub data Imported (option : Option (Option String)) : Option O → Type 0 where
    nothing : option ≡ some none → Imported option none
    object :
        (path : String) (it : O)
        → option ≡ some (some path)
        → locate path ≡ some it
        → Imported option (some it)

  -- An option is missing, or there is nothing at its path.
  pub data NotImported (key : String) (option : Option (Option String)) (exc : Exc) : Type 0 where
    missing :
        option ≡ none
        → exc.type ≡ builtin "KeyError"
        → exc.as_text ≡ some ("'" ++ (key ++ "'"))
        → NotImported key option exc
    not_found :
        (path : String)
        → option ≡ some (some path)
        → locate path ≡ none
        → exc.type ≡ builtin "ImportError"
        → exc.as_text ≡ some ("`" ++ (path ++ "` could not be imported"))
        → NotImported key option exc

  -- How the round for a name comes out: `register` is called with both objects and the other options,
  -- or one of the objects cannot be had, the encoder first.
  pub data Registered (name : String) (kwargs : Kwargs) (k : K) : Result Exc K → Type 0 where
    no_encoder :
        (exc : Exc)
        → NotImported "encoder" (get "encoder" kwargs) exc
        → Registered name kwargs k (raised exc)
    no_decoder :
        (encoder : Option O) (exc : Exc)
        → Imported (get "encoder" kwargs) encoder
        → NotImported "decoder" (get "decoder" kwargs) exc
        → Registered name kwargs k (raised exc)
    registered :
        (encoder decoder : Option O)
        → Imported (get "encoder" kwargs) encoder
        → Imported (get "decoder" kwargs) decoder
        → Registered name kwargs k
            (register name encoder decoder (remove "decoder" (remove "encoder" kwargs)) k)

  -- An option is popped and imported, and what follows runs on the object.
  import_lem :
      {X : Type 0} (key : String) (kwargs : Kwargs) (f : Option O → Kwargs → Result Exc X)
      → ((o : Option O) × Imported (get key kwargs) o
          × (chain (pop key kwargs) (λ e. chain (import_from_path locate e.0) (λ o'. f o' e.1))
              ≡ f o (remove key kwargs)))
        ⊎ ((exc : Exc) × NotImported key (get key kwargs) exc
            × (chain (pop key kwargs) (λ e. chain (import_from_path locate e.0) (λ o'. f o' e.1))
                ≡ raised exc))
  import_lem key kwargs f = elim (Option-cases (get key kwargs)) [
    | inl g ↦ inr (key_error key, missing g refl refl, rw (g, chain) refl)
    | inr (v, g) ↦ elim (Option-cases v) [
      | inl e ↦ inl (none, nothing (rw (g, e) refl), rw (g, e, chain) refl)
      | inr (path, e) ↦ elim (Option-cases (locate path)) [
        | inl l ↦ inr (
          not_importable path,
          not_found path (rw (g, e) refl) l refl refl,
          rw (g, e, l, chain) refl,
        )
        | inr (it, l) ↦ inl (some it, object path it (rw (g, e) refl) l, rw (g, e, l, chain) refl)
      ]
    ]
  ]

  decoder_kept : (kwargs : Kwargs) → get "decoder" (remove "encoder" kwargs) ≡ get "decoder" kwargs
  decoder_kept kwargs = ground (arith, get-remove "encoder" "decoder" kwargs)

  pub register_one-Registered :
      (name : String) (kwargs : Kwargs) (k : K)
      → Registered name kwargs k (register_one kombu name kwargs k)
  unfolding register_one
  register_one-Registered name kwargs k =
      let with_encoder : Option O → Kwargs → Result Exc K = λ encoder left.
        chain (pop "decoder" left) (λ d.
          chain (import_from_path locate d.0) (λ decoder. register name encoder decoder d.1 k)) in
      elim (import_lem "encoder" kwargs with_encoder) [
        | inr (exc, bad, e) ↦ rw e (no_encoder exc bad)
        | inl (encoder, good, e) ↦
            rw e
              (elim (import_lem "decoder" (remove "encoder" kwargs)
                (λ decoder left. register name encoder decoder left k)) [
                  | inr (exc, bad, e') ↦
                      rw e' (no_decoder encoder exc good (rw (← decoder_kept kwargs) bad))
                  | inl (decoder, good', e') ↦
                      rw e' (registered encoder decoder good (rw (← decoder_kept kwargs) good'))
                ])
      ]
