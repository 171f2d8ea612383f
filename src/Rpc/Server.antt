-- ===== src/Rpc/Server.antt =====
-- `RpcConsumer`, `Rpc` and `Responder` of nameko/rpc.py: from a request message to its reply.
pub mod Replying
pub mod Requests
pub mod Settling
use Prim.Native.Char.{code}
use Prim.Native.String.{◌++◌}
use nameko.Prelude.{
  ℕ, String, ◌≡◌, Bool, true, false, Option, none, some, List, [], ◌∷◌, string_eq, Eq, ◌==◌, nat_eq,
  if◌then◌else◌,
}
use nameko.Prelude.Dict.{Dict}
use nameko.Prelude.Text.{join_dot}
use nameko.Containers.Context.{Datum}
use nameko.Exceptions.{Value, text, Values, nil, cons, Outcome, ok, unhashable}
use nameko.Exceptions.Registry.{
  Exc, ExcType, Serialized, serialize, method_not_found, malformed_request, incorrect_signature,
}
use nameko.Messaging.Headers.{unpack_message_headers}
use nameko.Messaging.Delivery.{Message, Reply, Effect, replied, Act, ack_message, requeue_message}
use nameko.Action.{pure, throw, require, ◌>>=◌, ◌>>◌, try_except, emit}

-- The body of a request; a key may be missing.
pub record Body (V : Type 0) : Type 0 where
  pub args : Option (List V)
  pub kwargs : Option (Dict String V)

-- What `spawn_worker` is called with.
pub record Job (V : Type 0) : Type 0 where
  pub method_name : String
  pub args : List V
  pub kwargs : Dict String V
  pub context_data : Dict String (Datum V)

-- The consumer's service and its registered providers by their method names, the state of its
-- container, and what stands outside: `inspect.getcallargs` on the service's methods (none, or the
-- text of its TypeError), kombu's registry of content types, its `dumps` and the publisher (none,
-- or the exception raised), and `repr` on results (none if it raises).
pub record Server (V R : Type 0) : Type 0 where
  pub service_name : String
  pub providers : List String
  pub being_killed : Bool
  pub getcallargs : String → List V → Dict String V → Option String
  pub type_to_name : String → Option String
  pub dumps : String → Option R → Option Exc
  pub repr : Option R → Option String
  pub publish : Reply R → Option Exc

abbrev pub one_text : String → Values
one_text s = cons (text s) nil

abbrev pub builtin : String → ExcType
builtin name = record { module_name = "builtins"; name = name }

abbrev pub key_error : String → Exc
key_error key = record { type = builtin "KeyError"; args = one_text key; as_text = some key }

abbrev pub unhashable_error : Exc
unhashable_error = record {
  type = builtin "TypeError";
  args = one_text "unhashable type";
  as_text = some "unhashable type";
}

abbrev pub bad_request : ExcType → String → Exc
bad_request type message = record { type = type; args = one_text message; as_text = some message }

-- routing_key.split(".")[-1]
unfoldable pub last_part : String → String → String
last_part seen String.[] = seen
last_part seen (String.◌∷◌ c rest) =
    last_part (if nat_eq (code c) b'.' then "" else seen ++ String.◌∷◌ c "") rest

abbrev pub find_provider : String → String → List String → Option String
find_provider service routing_key [] = none
find_provider service routing_key (method_name ∷ rest) =
    if join_dot service method_name == routing_key
    then some method_name
    else find_provider service routing_key rest

abbrev unserializable_text : Option String → String
unserializable_text (some r) = "Unserializable value: `" ++ (r ++ "`")
unserializable_text none = "Unserializable value: `[__repr__ failed]`"

abbrev pub unserializable_value_error : Option String → Exc
unserializable_value_error repr = record {
  type = record { module_name = "nameko.exceptions"; name = "UnserializableValueError" };
  args = nil;
  as_text = some (unserializable_text repr);
}

abbrev pub both : {A B : Type 0} → Option A → Option B → Option (A × B)
both (some a) (some b) = some (a, b)
both _ _ = none

module _ {V R : Type 0} (server : Server V R) where
  open server use {
    service_name, providers, being_killed, getcallargs, type_to_name, dumps, repr, publish,
  }

  -- `get_provider_for_method`
  unfoldable pub get_provider_for_method : String → Act R String
  get_provider_for_method routing_key =
      require (bad_request method_not_found (last_part "" routing_key))
        (find_provider service_name routing_key providers)

  abbrev lift_serialized : Outcome Serialized → Act R Serialized
  lift_serialized (ok entry) = pure entry
  lift_serialized unhashable = throw unhashable_error

  abbrev serialize_given : Option Exc → Act R (Option Serialized)
  serialize_given none = pure none
  serialize_given (some exc) = do entry ← lift_serialized (serialize exc); pure (some entry)

  -- What is sent, and what is returned to the container: result, error, exception.
  abbrev checked :
      Option R
      → Option Serialized
      → Option Exc
      → Option Exc
      → Act R (Option R × Option Serialized × Option Exc)
  checked result error exc none = pure (result, error, exc)
  checked result error exc (some failure) = do
    entry ← lift_serialized (serialize (unserializable_value_error (repr result)))
    pure (none, some entry, some failure)

  abbrev send : Reply R → Act R Unit
  send reply = elim (publish reply) [ none ↦ emit (replied reply) | some e ↦ throw e ]

  -- `Responder.send_response`
  unfoldable pub send_response : Message V → Option R → Option Exc → Act R (Option R × Option Exc)
  send_response message result exc = do
    error ← serialize_given exc
    content_type ← require (key_error "content_type") message.content_type
    serializer ← require (key_error content_type) (type_to_name content_type)
    payload ← checked result error exc (dumps serializer result)
    routing_key ← require (key_error "reply_to") message.reply_to
    send (record {
      result = payload.0;
      error = payload.1;
      serializer = serializer;
      routing_key = routing_key;
      correlation_id = message.correlation_id;
    })
    pure (payload.0, payload.2)

  -- `RpcConsumer.handle_result`
  unfoldable pub handle_result : Message V → Option R → Option Exc → Act R (Option R × Option Exc)
  handle_result message result exc = do
    sent ← send_response message result exc
    ack_message message
    pure sent

  abbrev check_signature : String → List V → Dict String V → Act R Unit
  check_signature method_name args kwargs = elim (getcallargs method_name args kwargs) [
    | none ↦ pure tt
    | some message ↦ throw (bad_request incorrect_signature message)
  ]

  -- `spawn_worker`, and the handler of its ContainerBeingKilled
  abbrev spawn_or_requeue : Message V → Job V → Act R (Option (Job V))
  spawn_or_requeue message job =
      if being_killed then (do requeue_message message; pure none) else pure (some job)

  -- `Rpc.handle_message` of the provider: the worker that is spawned, or none if the container is
  -- being killed and the message is requeued.
  unfoldable pub provider_handle_message : String → Body V → Message V → Act R (Option (Job V))
  provider_handle_message method_name body message = do
    call ←
        require (bad_request malformed_request "Message missing `args` or `kwargs`")
          (both body.args body.kwargs)
    check_signature method_name call.0 call.1
    spawn_or_requeue message (record {
      method_name = method_name;
      args = call.0;
      kwargs = call.1;
      context_data = unpack_message_headers message.headers;
    })

  -- `RpcConsumer.handle_message`
  unfoldable pub handle_message : Body V → Message V → Act R (Option (Job V))
  handle_message body message =
      try_except
        (do
          method_name ← get_provider_for_method message.routing_key
          provider_handle_message method_name body message)
        (λ exc. do handle_result message none (some exc); pure none)

  -- A request through the service: the handler and, if it spawns a worker, that worker, which runs
  -- the method (its result or exception is `worker job`) and hands over the outcome;
  -- it is taken to reach `handle_result`.
  abbrev finish : (Job V → Option R × Option Exc) → Message V → Option (Job V) → Act R Unit
  finish worker message none = pure tt
  finish worker message (some job) = do handle_result message (worker job).0 (worker job).1; pure tt

  unfoldable pub serve : (Job V → Option R × Option Exc) → Body V → Message V → Act R Unit
  serve worker body message = do job ← handle_message body message; finish worker message job
