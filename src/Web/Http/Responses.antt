-- ===== src/Web/Http/Responses.antt =====
-- The responses that an HTTP entrypoint gives (nameko/web/handlers.py).
use Prim.Native.String.{◌++◌}
use nameko.Prelude.{
  Option, true, false, Bool-cases, ℕ, String, ◌≡◌, ◌⊎◌, inl, inr, none, some, arith, refl,
  Option-cases,
}
use nameko.Exceptions.{text, Values, Outcome, ok, unhashable, safe_values, safe_for_serialization}
use nameko.Exceptions.Registry.{Exc, Serialized, serialize, incorrect_signature}
use nameko.Rpc.Server.{bad_request}
use nameko.Action.{Result-cases, returned, raised}
use nameko.Web.Requests.Answers.{Writable, bad_request-Writable}
use nameko.Web.Http.{
  string, object, Returned, response, triple, pair, tuple_of, plain, Response, same, made,
  payload_error, unpack_error, response_from_result, error_text, Handler, status_of,
  response_from_exception, try_request, handle_request,
}

module _ {W H : Type 0} where
  -- The response that a result stands for; tuples of other lengths and payloads that are no strings
  -- stand for none.
  pub data StandsFor : Returned W H → Response W H → Type 0 where
    itself : (r : W) → StandsFor (response r) (same r)
    with_headers :
        (status : ℕ) (headers : H) (s : String)
        → StandsFor (triple status headers (string s)) (made s status (some headers))
    with_status :
        (status : ℕ) (s : String) → StandsFor (pair status (string s)) (made s status none)
    alone : (s : String) → StandsFor (plain (string s)) (made s 200 none)

  -- A payload that is no string, with its `repr`.
  pub data NoString : Returned W H → String → Type 0 where
    in_triple :
        (status : ℕ) (headers : H) (repr : String)
        → NoString (triple status headers (object repr)) repr
    in_pair : (status : ℕ) (repr : String) → NoString (pair status (object repr)) repr
    on_its_own : (repr : String) → NoString (plain (object repr)) repr

  -- The exception for a result that stands for no response.
  pub data Rejected : Returned W H → Exc → Type 0 where
    no_string :
        (result : Returned W H) (repr : String) (exc : Exc)
        → NoString result repr
        → exc.as_text ≡ some ("Payload must be a string. Got `" ++ (repr ++ "`"))
        → Rejected result exc
    wrong_length :
        (message : String) (exc : Exc)
        → exc.as_text ≡ some message
        → Rejected (tuple_of message) exc

  -- A result is turned into the response that it stands for, or raises an exception that is
  -- serializable.
  result_cases :
      (result : Returned W H)
      → ((r : Response W H) × (response_from_result result ≡ returned r) × StandsFor result r)
        ⊎ ((exc : Exc) × (response_from_result result ≡ raised exc)
            × Writable exc
            × Rejected result exc)
  unfolding response_from_result serialize safe_values
  result_cases (response r) = inl (same r, refl, itself r)
  result_cases (triple status headers (string s)) =
      inl (made s status (some headers), refl, with_headers status headers s)
  result_cases (triple status headers (object repr)) = inr (
    payload_error repr,
    refl,
    (_, refl),
    no_string _ repr (payload_error repr) (in_triple status headers repr) refl,
  )
  result_cases (pair status (string s)) = inl (made s status none, refl, with_status status s)
  result_cases (pair status (object repr)) = inr (
    payload_error repr,
    refl,
    (_, refl),
    no_string _ repr (payload_error repr) (in_pair status repr) refl,
  )
  result_cases (tuple_of message) =
      inr (unpack_error message, refl, (_, refl), wrong_length message (unpack_error message) refl)
  result_cases (plain (string s)) = inl (made s 200 none, refl, alone s)
  result_cases (plain (object repr)) = inr (
    payload_error repr,
    refl,
    (_, refl),
    no_string _ repr (payload_error repr) (on_its_own repr) refl,
  )

-- The text that an exception is written with.
abbrev pub IsText : Exc → String → Type 0
IsText exc s = (exc.as_text ≡ some s) ⊎ ((exc.as_text ≡ none) × (s ≡ "[__unicode__ failed]"))

serialize-texts :
    (exc : Exc) (error : Serialized)
    → serialize exc ≡ ok error
    → (s : String) × IsText exc s
      × (error_text error ≡ "Error: " ++ (exc.type.name ++ (": " ++ (s ++ "\n"))))
unfolding serialize safe_for_serialization
serialize-texts exc error e = by_args (safe_values exc.args) exc.as_text refl refl
  where
    by_args :
        (o : Outcome Values) (t : Option String)
        → safe_values exc.args ≡ o
        → exc.as_text ≡ t
        → (s : String) × IsText exc s
          × (error_text error ≡ "Error: " ++ (exc.type.name ++ (": " ++ (s ++ "\n"))))
    by_args unhashable t h k = absurd (ground (arith, e, h))
    by_args (ok args) (some s) h k = (s, inl k, ground (arith, e, h, k))
    by_args (ok args) none h k =
        let type : error.exc_type ≡ some exc.type.name = ground (arith, e, h) in
        let value : error.value ≡ some (text "[__unicode__ failed]") = ground (arith, e, h, k) in
        ("[__unicode__ failed]", inr (k, refl), rw (type, value) refl)

module _ {Q W H : Type 0} (handler : Handler Q W H) (request : Q) where
  -- The first exception on the way to a response: the arguments do not fit, the container is being
  -- killed, the worker raised, or its result stands for no response.
  pub data Raises : Exc → Type 0 where
    misfit :
        (message : String)
        → handler.getcallargs request ≡ some message
        → Raises (bad_request incorrect_signature message)
    dying :
        (exc : Exc)
        → handler.getcallargs request ≡ none
        → handler.being_killed ≡ some exc
        → Raises exc
    worker_raised :
        (exc : Exc)
        → handler.getcallargs request ≡ none
        → handler.being_killed ≡ none
        → handler.worker request ≡ raised exc
        → Raises exc
    rejected :
        (result : Returned W H) (exc : Exc)
        → handler.getcallargs request ≡ none
        → handler.being_killed ≡ none
        → handler.worker request ≡ returned result
        → Rejected result exc
        → Raises exc

  pub data HasStatus (exc : Exc) : ℕ → Type 0 where
    by_caller :
        (handler.is_expected exc ≡ true) ⊎ (handler.is_bad_request exc ≡ true) → HasStatus exc 400
    by_service :
        handler.is_expected exc ≡ false → handler.is_bad_request exc ≡ false → HasStatus exc 500

  status_of-HasStatus : (exc : Exc) → HasStatus exc (status_of handler exc)
  status_of-HasStatus exc = elim (Bool-cases (handler.is_expected exc)) [
    | inl expected ↦ rw expected (by_caller (inl expected))
    | inr other ↦ elim (Bool-cases (handler.is_bad_request exc)) [
      | inl bad ↦ rw (other, bad) (by_caller (inr bad))
      | inr fine ↦ rw (other, fine) (by_service other fine)
    ]
  ]

  -- A result of the worker, or an exception on the way to it, with its text and status.
  pub data Answers : Response W H → Type 0 where
    worked :
        (result : Returned W H) (r : Response W H)
        → handler.getcallargs request ≡ none
        → handler.being_killed ≡ none
        → handler.worker request ≡ returned result
        → StandsFor result r
        → Answers r
    failed :
        (exc : Exc) (s : String) (status : ℕ)
        → Raises exc
        → IsText exc s
        → HasStatus exc status
        → Answers (made ("Error: " ++ (exc.type.name ++ (": " ++ (s ++ "\n")))) status none)

  abbrev pub Responds : Type 0
  Responds = (r : Response W H) × (handle_request handler request ≡ returned r) × Answers r

  fails :
      (exc : Exc) → try_request handler request ≡ raised exc → Raises exc → Writable exc → Responds
  unfolding handle_request response_from_exception
  fails exc e raises (error, w) =
      let (s, is_text, it) = serialize-texts exc error w in
      (
        made ("Error: " ++ (exc.type.name ++ (": " ++ (s ++ "\n")))) (status_of handler exc) none,
        ground (arith, e, w, it),
        failed exc s (status_of handler exc) raises is_text (status_of-HasStatus exc),
      )

  -- Let the exceptions of the worker, and of a container that is being killed, be serializable. Every
  -- request gets a response: the one that the worker's result stands for, if the arguments fit and
  -- the container takes the worker, or else one with the name and text of the first exception, and status 400
  -- if that is an expected exception or a BadRequest, and 500 if not.
  pub handle_request-responds :
      ((exc : Exc) → handler.being_killed ≡ some exc → Writable exc)
      → ((exc : Exc) → handler.worker request ≡ raised exc → Writable exc)
      → Responds
  unfolding handle_request try_request
  handle_request-responds k w = elim (Option-cases (handler.getcallargs request)) [
    | inr (message, wrong) ↦
        fails (bad_request incorrect_signature message) (ground (arith, wrong))
          (misfit message wrong) (bad_request-Writable incorrect_signature message)
    | inl fits ↦ elim (Option-cases handler.being_killed) [
      | inr (exc, killed) ↦
          fails exc (ground (arith, fits, killed)) (dying exc fits killed) (k exc killed)
      | inl alive ↦ elim (Result-cases (handler.worker request)) [
        | inl (exc, e) ↦
            fails exc (ground (arith, fits, alive, e)) (worker_raised exc fits alive e) (w exc e)
        | inr (result, e) ↦ elim (result_cases result) [
          | inl (r, made_of, stands) ↦
              (r, ground (arith, fits, alive, e, made_of), worked result r fits alive e stands)
          | inr (exc, refused, written, why) ↦
              fails exc (ground (arith, fits, alive, e, refused))
                (rejected result exc fits alive e why) written
        ]
      ]
    ]
  ]
