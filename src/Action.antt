-- ===== src/Action.antt =====
-- Python statements that do something outside and may raise: an action appends to a record of what
-- was done, of type `E`, and returns or raises an exception of type `X`.
use nameko.Prelude.{◌≡◌, ◌⊎◌, inl, inr, refl, Option, none, some, List, [], ◌∷◌, ◌++◌}

pub data Result (X A : Type 0) : Type 0 where
  returned : A → Result X A
  raised : X → Result X A

pub Result-cases :
    {X A : Type 0} (m : Result X A) → ((e : X) × (m ≡ raised e)) ⊎ ((a : A) × (m ≡ returned a))
Result-cases (raised e) = inl (e, refl)
Result-cases (returned a) = inr (a, refl)

abbrev pub Act : Type 0 → Type 0 → Type 0 → Type 0
Act X E A = List E → Result X A × List E

module _ {X E A : Type 0} where
  abbrev pub pure : A → Act X E A
  pure a log = (returned a, log)

  abbrev pub throw : X → Act X E A
  throw e log = (raised e, log)

  -- an exception for a value that is missing
  abbrev pub require : X → Option A → Act X E A
  require e none = throw e
  require e (some a) = pure a

module _ {X E A B : Type 0} where
  abbrev pub and_then : Result X A → (A → Act X E B) → Act X E B
  and_then (returned a) f = f a
  and_then (raised e) f = throw e

  infixl 5 ◌>>=◌ ◌>>◌
  abbrev pub ◌>>=◌ : Act X E A → (A → Act X E B) → Act X E B
  ◌>>=◌ m f log = and_then (m log).0 f (m log).1

  abbrev pub ◌>>◌ : Act X E A → Act X E B → Act X E B
  m >> n = m >>= λ _. n

-- `try: body` / `except Exception: handler`; what the body did before it raised stays done.
module _ {X E A : Type 0} where
  abbrev pub recover : Result X A → (X → Act X E A) → Act X E A
  recover (returned a) handler = pure a
  recover (raised e) handler = handler e

  abbrev pub try_except : Act X E A → (X → Act X E A) → Act X E A
  try_except body handler log = recover (body log).0 handler (body log).1

module _ {X E : Type 0} where
  abbrev pub emit : E → Act X E Unit
  emit event log = (returned tt, log ++ event ∷ [])

  -- a call that is recorded, and then raises if it fails
  abbrev pub attempt : E → Option X → Act X E Unit
  attempt event none = emit event
  attempt event (some e) = λ log. (raised e, log ++ event ∷ [])
