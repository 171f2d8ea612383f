-- ===== src/Web/Requests/Answers.antt =====
-- What a websocket gets for a frame (nameko/web/websocket.py).
use nameko.Prelude.{
  String, ◌≡◌, true, false, none, some, List, [], ◌∷◌, string_eq, arith, refl, inl, inr,
  Option-cases, Bool-cases, if◌then◌else◌,
}
use nameko.Prelude.Set.{contains}
use nameko.Exceptions.{ok, safe_values}
use nameko.Exceptions.Registry.{
  Exc, ExcType, Serialized, serialize, incorrect_signature, malformed_request,
}
use nameko.Rpc.Server.{bad_request}
use nameko.Action.{Result-cases, returned, raised}
use nameko.Web.Requests.{
  Frame, Response, success, failure, Endpoint, unknown_method, invalid_frame, deserialize_ws_frame,
  get_provider_for_method, handle_message, handle_websocket_request, find_method,
}

abbrev pub Writable : Exc → Type 0
Writable exc = (error : Serialized) × (serialize exc ≡ ok error)

pub bad_request-Writable : (type : ExcType) (message : String) → Writable (bad_request type message)
unfolding serialize safe_values
bad_request-Writable type message = (_, refl)

unknown_method-Writable : Writable unknown_method
unfolding serialize safe_values
unknown_method-Writable = (_, refl)

module _ {D C R : Type 0} (endpoint : Endpoint D C R) (id raw : String) where
  -- The responses that the state of the service allows, by what stopped the request, if anything.
  -- The frame's correlation id is in all but the first two.
  pub data Answers : Response C R → Type 0 where
    not_json : (w : Writable invalid_frame) → endpoint.loads raw ≡ none → Answers (failure w.0 none)
    no_method :
        (w : Writable invalid_frame) (frame : Frame D C)
        → endpoint.loads raw ≡ some frame
        → frame.method ≡ none
        → Answers (failure w.0 none)
    not_found :
        (w : Writable unknown_method) (frame : Frame D C) (method : String)
        → endpoint.loads raw ≡ some frame
        → frame.method ≡ some method
        → contains method endpoint.providers ≡ false
        → Answers (failure w.0 frame.correlation_id)
    misfit :
        (frame : Frame D C) (method message : String)
        (w : Writable (bad_request incorrect_signature message))
        → endpoint.loads raw ≡ some frame
        → frame.method ≡ some method
        → contains method endpoint.providers ≡ true
        → endpoint.getcallargs method id frame.payload ≡ some message
        → Answers (failure w.0 frame.correlation_id)
    killed :
        (frame : Frame D C) (method : String) (exc : Exc) (w : Writable exc)
        → endpoint.loads raw ≡ some frame
        → frame.method ≡ some method
        → contains method endpoint.providers ≡ true
        → endpoint.getcallargs method id frame.payload ≡ none
        → endpoint.being_killed ≡ some exc
        → Answers (failure w.0 frame.correlation_id)
    failed :
        (frame : Frame D C) (method : String) (exc : Exc) (w : Writable exc)
        → endpoint.loads raw ≡ some frame
        → frame.method ≡ some method
        → contains method endpoint.providers ≡ true
        → endpoint.getcallargs method id frame.payload ≡ none
        → endpoint.being_killed ≡ none
        → endpoint.worker method id frame.payload ≡ raised exc
        → Answers (failure w.0 frame.correlation_id)
    worked :
        (frame : Frame D C) (method : String) (result : R)
        → endpoint.loads raw ≡ some frame
        → frame.method ≡ some method
        → contains method endpoint.providers ≡ true
        → endpoint.getcallargs method id frame.payload ≡ none
        → endpoint.being_killed ≡ none
        → endpoint.worker method id frame.payload ≡ returned result
        → Answers (success result frame.correlation_id)

  abbrev pub Sent : Type 0
  Sent =
      (response : Response C R) × Answers response
      × (handle_websocket_request endpoint id raw ≡ endpoint.dumps response)

  find_method_lem :
      (method : String) (l : List String)
      → find_method endpoint method l
        ≡ (if contains method l then returned method else raised unknown_method)
  unfolding contains
  find_method_lem method [] = refl
  find_method_lem method (name ∷ rest) =
      ground (arith, find_method_lem method rest, string_eq.equal_iff name method)

  module _ (frame : Frame D C) (method : String) (loaded : endpoint.loads raw ≡ some frame)
      (named : frame.method ≡ some method) (known : contains method endpoint.providers ≡ true) where
    after_lookup :
        ((exc : Exc) → endpoint.being_killed ≡ some exc → Writable exc)
        → ((exc : Exc) → endpoint.worker method id frame.payload ≡ raised exc → Writable exc)
        → Sent
    unfolding handle_websocket_request get_provider_for_method handle_message deserialize_ws_frame
    after_lookup k w = elim (Option-cases (endpoint.getcallargs method id frame.payload)) [
      | inr (message, wrong) ↦
          let written = bad_request-Writable incorrect_signature message in
          (
            _,
            misfit frame method message written loaded named known wrong,
            ground (
              arith,
              loaded,
              named,
              known,
              find_method_lem method endpoint.providers,
              wrong,
              written.1,
            ),
          )
      | inl fits ↦ elim (Option-cases endpoint.being_killed) [
        | inr (exc, dying) ↦ (
          _,
          killed frame method exc (k exc dying) loaded named known fits dying,
          ground (
            arith,
            loaded,
            named,
            known,
            find_method_lem method endpoint.providers,
            fits,
            dying,
            (k exc dying).1,
          ),
        )
        | inl alive ↦ elim (Result-cases (endpoint.worker method id frame.payload)) [
          | inl (exc, e) ↦ (
            _,
            failed frame method exc (w exc e) loaded named known fits alive e,
            ground (
              arith,
              loaded,
              named,
              known,
              find_method_lem method endpoint.providers,
              fits,
              alive,
              e,
              (w exc e).1,
            ),
          )
          | inr (result, e) ↦ (
            _,
            worked frame method result loaded named known fits alive e,
            ground (
              arith,
              loaded,
              named,
              known,
              find_method_lem method endpoint.providers,
              fits,
              alive,
              e,
            ),
          )
        ]
      ]
    ]

  -- Let the exceptions of the worker and of a container that is being killed be serializable.
  -- Every frame is answered by a response that is dumped: an error for the first of the steps that
  -- fails (the JSON, the method, its provider, its signature, the container, the worker), or else the
  -- result, under the correlation id that the frame has, if it could be read.
  pub handle_websocket_request_answers :
      ((exc : Exc) → endpoint.being_killed ≡ some exc → Writable exc)
      → ((method : String) (data' : D) (exc : Exc)
          → endpoint.worker method id data' ≡ raised exc
          → Writable exc)
      → Sent
  unfolding handle_websocket_request get_provider_for_method deserialize_ws_frame
  handle_websocket_request_answers k w = elim (Option-cases (endpoint.loads raw)) [
    | inl absent ↦
        let written = bad_request-Writable malformed_request "Invalid JSON data" in
        (_, not_json written absent, ground (arith, absent, written.1))
    | inr (frame, loaded) ↦ elim (Option-cases frame.method) [
      | inl unnamed ↦
          let written = bad_request-Writable malformed_request "Invalid JSON data" in
          (_, no_method written frame loaded unnamed, ground (arith, loaded, unnamed, written.1))
      | inr (method, named) ↦ elim (Bool-cases (contains method endpoint.providers)) [
        | inl known ↦ after_lookup frame method loaded named known k (w method frame.payload)
        | inr unknown ↦ (
          _,
          not_found unknown_method-Writable frame method loaded named unknown,
          ground (
            arith,
            loaded,
            named,
            unknown,
            find_method_lem method endpoint.providers,
            unknown_method-Writable.1,
          ),
        )
      ]
    ]
  ]
