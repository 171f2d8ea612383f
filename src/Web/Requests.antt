-- ===== src/Web/Requests.antt =====
-- The requests of websockets in nameko/web/websocket.py: from a frame to the response, and the main
-- loop of a socket.
pub mod Answers
pub mod Cleanup
use nameko.Prelude.{String, Option, none, some, List, [], ◌∷◌, string_eq, ◌==◌, if◌then◌else◌}
use nameko.Exceptions.{nil, Outcome, ok, unhashable}
use nameko.Exceptions.Registry.{
  Exc, ExcType, Serialized, serialize, method_not_found, malformed_request, incorrect_signature,
}
use nameko.Rpc.Server.{bad_request, unhashable_error}
use nameko.Action.{Result, returned, raised, recover}
use nameko.Web.Hub.{WebSocketServer, add_websocket, remove_socket}

-- A frame that is a JSON object: data['method'], data.get('data') or {}, data.get('correlation_id').
pub record Frame (D C : Type 0) : Type 0 where
  pub method : Option String
  pub payload : D
  pub correlation_id : Option C

pub data Response (C R : Type 0) : Type 0 where
  success : R → Option C → Response C R
  failure : Serialized → Option C → Response C R

-- The method names of the `WebSocketRpc` providers, and what stands outside: whether the container
-- is being killed, `inspect.getcallargs`, what `json.loads` makes of a frame (none if it raises, or
-- makes no object), `json.dumps`, and the outcome of a worker, which is
-- taken to reach `handle_result`.
pub record Endpoint (D C R : Type 0) : Type 0 where
  pub providers : List String
  pub being_killed : Option Exc
  pub getcallargs : String → String → D → Option String
  pub loads : String → Option (Frame D C)
  pub dumps : Response C R → Result Exc String
  pub worker : String → String → D → Result Exc R

abbrev pub chain : {X A B : Type 0} → Result X A → (A → Result X B) → Result X B
chain (returned a) f = f a
chain (raised e) f = raised e

-- `MethodNotFound()`
abbrev pub unknown_method : Exc
unknown_method = record { type = method_not_found; args = nil; as_text = some "" }

abbrev pub invalid_frame : Exc
invalid_frame = bad_request malformed_request "Invalid JSON data"

abbrev pub raise_if : Option Exc → Result Exc Unit
raise_if none = returned tt
raise_if (some exc) = raised exc

module _ {D C R : Type 0} (endpoint : Endpoint D C R) where
  open endpoint use {providers, being_killed, getcallargs, loads, dumps, worker}

  abbrev fields : Option (Frame D C) → Result Exc (String × D × Option C)
  fields none = raised invalid_frame
  fields (some frame) = elim frame.method [
    | none ↦ raised invalid_frame
    | some method ↦ returned (method, frame.payload, frame.correlation_id)
  ]

  unfoldable pub deserialize_ws_frame : String → Result Exc (String × D × Option C)
  deserialize_ws_frame raw_req = fields (loads raw_req)

  abbrev find_method : String → List String → Result Exc String
  find_method method [] = raised unknown_method
  find_method method (name ∷ rest) =
      let later = find_method method rest in if name == method then returned name else later

  -- `get_provider_for_method`
  unfoldable pub get_provider_for_method : String → Result Exc String
  get_provider_for_method method = find_method method providers

  abbrev check_signature : String → String → D → Result Exc Unit
  check_signature method socket_id given = elim (getcallargs method socket_id given) [
    | none ↦ returned tt
    | some message ↦ raised (bad_request incorrect_signature message)
  ]

  -- `WebSocketRpc.handle_message`: a worker is spawned, and its outcome is waited for.
  unfoldable pub handle_message : String → String → D → Result Exc R
  handle_message method socket_id given =
      chain (check_signature method socket_id given)
        (λ _. chain (raise_if being_killed) (λ _. worker method socket_id given))

  -- The body of the `try`, with the correlation id when it is known.
  abbrev attempt_request : String → String → Result (Option C × Exc) (Response C R)
  attempt_request socket_id raw_req = elim (deserialize_ws_frame raw_req) [
    | raised exc ↦ raised (none, exc)
    | returned request ↦
        elim (chain (get_provider_for_method request.0)
          (λ name. handle_message name socket_id request.1)) [
            | raised exc ↦ raised (request.2, exc)
            | returned result ↦ returned (success result request.2)
          ]
  ]

  abbrev lift : Option C → Outcome Serialized → Result Exc (Response C R)
  lift correlation_id (ok error) = returned (failure error correlation_id)
  lift correlation_id unhashable = raised unhashable_error

  abbrev answer_error : Result (Option C × Exc) (Response C R) → Result Exc (Response C R)
  answer_error (returned response) = returned response
  answer_error (raised (correlation_id, exc)) = lift correlation_id (serialize exc)

  unfoldable pub handle_websocket_request : String → String → Result Exc String
  unfolding deserialize_ws_frame get_provider_for_method handle_message
  handle_websocket_request socket_id raw_req =
      chain (answer_error (attempt_request socket_id raw_req)) dumps

-- An exception ends a loop where it stands.
abbrev go_on : {X S : Type 0} → Result X Unit → S → S → S
go_on (raised e) stopped next = stopped
go_on (returned _) stopped next = next

-- The handler of a socket: `respond` answers a frame, during which services may work on the hub;
-- `send` is what a send of the socket raises; the frames end with None.
module _ {W D X : Type 0} (send : W → String → Option X)
    (respond : String → String → WebSocketServer W D → Result X String × WebSocketServer W D) where
  abbrev send_to : W → Result X String → Result X Unit
  send_to ws (raised e) = raised e
  send_to ws (returned payload) = elim (send ws payload) [ none ↦ returned tt | some e ↦ raised e ]

  unfoldable pub serve_frames :
      String → W → List String → WebSocketServer W D → Result X Unit × WebSocketServer W D
  serve_frames id ws [] server = (returned tt, server)
  serve_frames id ws (raw_req ∷ rest) server =
      let (answer, server') = respond id raw_req server in
      let sent = send_to ws answer in
      let later = serve_frames id ws rest server' in go_on sent (sent, server') later

  abbrev finally_remove :
      String → Result X Unit × WebSocketServer W D → Result X Unit × WebSocketServer W D
  finally_remove id (outcome, server) = (outcome, remove_socket id server)

  unfoldable pub websocket_mainloop :
      String
      → D
      → String
      → W
      → List String
      → WebSocketServer W D
      → Result X Unit × WebSocketServer W D
  unfolding serve_frames
  websocket_mainloop id context greeting ws frames server =
      let added = add_websocket id ws context server in
      let greeted = send_to ws (returned greeting) in
      finally_remove id (go_on greeted (greeted, added) (serve_frames id ws frames added))
