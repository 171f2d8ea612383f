-- ===== src/Web/Http.antt =====
-- `HttpRequestHandler` of nameko/web/handlers.py: from a request to the response.
pub mod Responses
use Prim.Native.String.{◌++◌}
use nameko.Prelude.{ℕ, String, Bool, true, false, ◌||◌, Option, none, some, if◌then◌else◌}
use nameko.Exceptions.{Value, Values, text, stringify, nil, Outcome, ok, unhashable}
use nameko.Exceptions.Registry.{Exc, Serialized, serialize, incorrect_signature}
use nameko.Rpc.Server.{bad_request, unhashable_error, builtin, one_text}
use nameko.Action.{Result, returned, raised}
use nameko.Web.Requests.{chain, raise_if}

-- The payload of a result: a string, or another object with this `repr`.
pub data Payload : Type 0 where
  string : String → Payload
  object : String → Payload

-- What a method returns: a werkzeug Response, a tuple of three, of two or of another number of items
-- (with the message of the ValueError that unpacking it raises), or a payload. Headers are `H`, and
-- statuses are numbers.
pub data Returned (W H : Type 0) : Type 0 where
  response : W → Returned W H
  triple : ℕ → H → Payload → Returned W H
  pair : ℕ → Payload → Returned W H
  tuple_of : String → Returned W H
  plain : Payload → Returned W H

-- A response that is passed on, or one that is made.
pub data Response (W H : Type 0) : Type 0 where
  same : W → Response W H
  made : String → ℕ → Option H → Response W H

abbrev pub payload_error : String → Exc
payload_error repr =
    let message = "Payload must be a string. Got `" ++ (repr ++ "`") in
    record { type = builtin "TypeError"; args = one_text message; as_text = some message }

abbrev pub unpack_error : String → Exc
unpack_error message = record {
  type = builtin "ValueError";
  args = one_text message;
  as_text = some message;
}

module _ {W H : Type 0} where
  abbrev checked : Payload → ℕ → Option H → Result Exc (Response W H)
  checked (string s) status headers = returned (made s status headers)
  checked (object repr) status headers = raised (payload_error repr)

  unfoldable pub response_from_result : Returned W H → Result Exc (Response W H)
  response_from_result (response r) = returned (same r)
  response_from_result (triple status headers payload) = checked payload status (some headers)
  response_from_result (pair status payload) = checked payload status none
  response_from_result (tuple_of message) = raised (unpack_error message)
  response_from_result (plain payload) = checked payload 200 none

-- What str.format writes for an entry of the serialized exception: `serialize` always writes the
-- type, and the value as a text.
abbrev pub shown : Option Value → String
shown (some (text s)) = s
shown _ = ""

abbrev pub shown_type : Option String → String
shown_type (some s) = s
shown_type none = ""

abbrev pub error_text : Serialized → String
error_text error = "Error: " ++ (shown_type error.exc_type ++ (": " ++ (shown error.value ++ "\n")))

-- The request handler: `isinstance` with the expected exceptions and with BadRequest, and what stands
-- outside: `inspect.getcallargs`, the container, and the outcome of the worker for a request,
-- which is taken to reach `handle_result`.
pub record Handler (Q W H : Type 0) : Type 0 where
  pub is_expected : Exc → Bool
  pub is_bad_request : Exc → Bool
  pub getcallargs : Q → Option String
  pub being_killed : Option Exc
  pub worker : Q → Result Exc (Returned W H)

module _ {Q W H : Type 0} (handler : Handler Q W H) where
  abbrev pub status_of : Exc → ℕ
  status_of exc = if handler.is_expected exc || handler.is_bad_request exc then 400 else 500

  abbrev error_response : ℕ → Outcome Serialized → Result Exc (Response W H)
  error_response status (ok error) = returned (made (error_text error) status none)
  error_response status unhashable = raised unhashable_error

  unfoldable pub response_from_exception : Exc → Result Exc (Response W H)
  response_from_exception exc = error_response (status_of exc) (serialize exc)

  abbrev check_signature : Q → Result Exc Unit
  check_signature request = elim (handler.getcallargs request) [
    | none ↦ returned tt
    | some message ↦ raised (bad_request incorrect_signature message)
  ]

  -- The body of the `try`
  unfoldable pub try_request : Q → Result Exc (Response W H)
  unfolding response_from_result
  try_request request = chain (check_signature request) (λ _.
      chain (raise_if handler.being_killed)
        (λ _. chain (handler.worker request) (λ result. response_from_result result)))

  abbrev or_error : Result Exc (Response W H) → Result Exc (Response W H)
  or_error (returned r) = returned r
  or_error (raised exc) = response_from_exception exc

  unfoldable pub handle_request : Q → Result Exc (Response W H)
  unfolding try_request response_from_exception
  handle_request request = or_error (try_request request)
