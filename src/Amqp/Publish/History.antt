-- ===== src/Amqp/Publish/History.antt =====
-- The dict of transport options that all publishers share (nameko/amqp/publish.py), over a history
-- of calls.
use nameko.Prelude.{
  String, ◌≡◌, false, Option, List, [], ◌∷◌, string_eq, refl, arith, ◌==◌, inl, inr, Option-cases,
  Bool-cases,
}
use nameko.Prelude.Dict.{Dict, get, get-put}
use nameko.Action.{Result}
use nameko.Amqp.Publish.{
  Setting, flag, Trouble, Failure, Publisher, Options, Extras, Sent, given, prepare, publish,
}

-- A call of `publish` by some publisher.
pub record Call (E H A B : Type 0) : Type 0 where
  pub publisher : Publisher E H A
  pub payload : B
  pub options : Options E H A
  pub extras : Extras H

module _ {E H A B : Type 0} (producer : Sent E H A B → Option Trouble) where
  abbrev pub made :
      Call E H A B → Dict String Setting → Result Failure Unit × Sent E H A B × Dict String Setting
  made c shared = publish producer c.publisher c.payload c.options c.extras shared

  abbrev pub shared_by : List (Call E H A B) → Dict String Setting → Dict String Setting
  shared_by [] shared = shared
  shared_by (c ∷ rest) shared = shared_by rest (made c shared).2

  -- Apart from the mark of confirms, the shared dict keeps its entries.
  shared_by-get :
      (calls : List (Call E H A B)) (shared : Dict String Setting) (k : String)
      → ("confirm_publish" == k) ≡ false
      → get k (shared_by calls shared) ≡ get k shared
  unfolding publish prepare
  shared_by-get [] shared k other = refl
  shared_by-get (c ∷ rest) shared k other = elim (Option-cases c.extras.transport_options) [
    | inl none_given ↦ ground (
      arith,
      none_given,
      other,
      shared_by-get rest (made c shared).2 k other,
      get-put "confirm_publish" k (flag (given c.options.use_confirms c.publisher.use_confirms))
          shared,
    )
    | inr (own, brought) ↦ ground (arith, brought, shared_by-get rest (made c shared).2 k other)
  ]

  -- Whatever publishers published before, over the one dict of transport options that all of them
  -- write to, a call hands over a message with the same transport options as if it were the first.
  pub publish-alone :
      (before : List (Call E H A B)) (c : Call E H A B) (shared : Dict String Setting) (k : String)
      → get k (made c (shared_by before shared)).1.transport ≡ get k (made c shared).1.transport
  unfolding publish prepare
  publish-alone before c shared k =
      let mark = flag (given c.options.use_confirms c.publisher.use_confirms) in
      elim (Option-cases c.extras.transport_options) [
        | inr (own, brought) ↦ ground (arith, brought)
        | inl none_given ↦ elim (Bool-cases ("confirm_publish" == k)) [
          | inl same ↦ ground (
            arith,
            same,
            none_given,
            get-put "confirm_publish" k mark shared,
            get-put "confirm_publish" k mark (shared_by before shared),
          )
          | inr other ↦ ground (
            arith,
            other,
            none_given,
            shared_by-get before shared k other,
            get-put "confirm_publish" k mark shared,
            get-put "confirm_publish" k mark (shared_by before shared),
          )
        ]
      ]
