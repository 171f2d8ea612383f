-- ===== src/Utils/Examples.antt =====
-- The theorems about nameko/utils at concrete data.
use nameko.Prelude.{ℕ, String, ◌≡◌, ◌≤◌, Option, some, List, [], ◌∷◌, length, refl}
use nameko.Action.{Result, raised}
use nameko.Utils.Redact.{
  name, Data, number, text, mapping, sequence, Fields, empty_mapping, field, Items, empty_sequence,
  item, redacted, redact,
}
use nameko.Utils.Redact.Paths.{follow, redact-IsRedacted}
use nameko.Utils.Retry.{RetryDelay, Outcome, expected, attempts}
use nameko.Utils.Retry.Bounds.{attempts-ends}
use nameko.Utils.Retry.Schedule.{call, call-schedule}

abbrev delay : RetryDelay
delay = record { delay = 2; backoff = 3; max_delay = 20 }

abbrev failing : ℕ → Outcome String ℕ
failing n = expected n

attempts-ends_example :
    (outcome : Result ℕ String) × ((attempts failing (some 2) 3 0 delay).0 ≡ some outcome)
    × (length (attempts failing (some 2) 3 0 delay).1 ≤ 2)
attempts-ends_example = attempts-ends failing 2 delay

-- The first call waits 6 and 18, the second one 20 and 20.
abbrev first_call : Option (Result ℕ String) × List ℕ × RetryDelay
first_call = call failing (λ n. n) (λ n. refl) 2 delay

call-schedule_example :
    (first_call.0 ≡ some (raised 2))
    × (first_call.1 ≡ 6 ∷ 18 ∷ [])
    × ((call failing (λ n. n) (λ n. refl) 2 first_call.2).0 ≡ some (raised 2))
    × ((call failing (λ n. n) (λ n. refl) 2 first_call.2).1 ≡ 20 ∷ 20 ∷ [])
call-schedule_example = call-schedule failing (λ n. n) (λ n. refl) 2 delay

-- method(token=5, user={"name": "Ann", "cards": [{"pin": "1234"}]})
abbrev card : Items
card = item (mapping (field (name "pin") (text "1234") empty_mapping)) empty_sequence

abbrev user : Fields
user = field (name "name") (text "Ann") (field (name "cards") (sequence card) empty_mapping)

abbrev arguments : Fields
arguments = field (name "token") (number 5) (field (name "user") (mapping user) empty_mapping)

redact-IsRedacted_example :
    (d' : Data) × (redact (mapping arguments) (name "user") (name "name" ∷ []) ≡ some d')
    × (follow d' (name "user") (name "name" ∷ []) ≡ some redacted)
    × (follow d' (name "user") (name "cards" ∷ []) ≡ some (sequence card))
redact-IsRedacted_example =
    redact-IsRedacted (mapping arguments) (name "user") (name "name" ∷ []) (text "Ann")
      (name "user") (name "cards" ∷ []) refl refl
