-- ===== src/Rpc/Client.antt =====
-- `ReplyListener`, `RpcReply` and `MethodProxy` of nameko/rpc.py: a call, and its reply.
pub mod Replies
use nameko.Prelude.{
  String, Bool, true, false, Option, none, some, List, [], ◌∷◌, string_eq, if◌then◌else◌,
}
use nameko.Prelude.Dict.{Dict, get, put, remove}
use nameko.Prelude.Set.{contains, add, discard}
use nameko.Prelude.Text.{join_dot}
use nameko.Containers.Context.{Datum, WorkerContext, context_data}
use nameko.Exceptions.Registry.{Exc, Serialized, Remote, Registry, deserialize}
use nameko.Messaging.Headers.{get_message_headers}
use nameko.Messaging.Delivery.{Message, Effect, ack_message}
use nameko.Rpc.Server.{Body, key_error}
use nameko.Action.{Result, returned, raised}

-- The body of a reply. The result may be missing.
pub record ReplyBody (R : Type 0) : Type 0 where
  pub result : Option (Option R)
  pub error : Option Serialized

-- What a call raises: what the service sent, UnknownService, or an exception on the way.
pub data Failure : Type 0 where
  remote : Remote → Failure
  unknown_service : String → Failure
  local : Exc → Failure

-- An event is named by the correlation id that it was made for, which is a new uuid. `reply_events`
-- holds the ids whose event is in the dict, and `sent` the bodies that events were sent.
pub record ReplyListener (R : Type 0) : Type 0 where
  pub routing_key : String
  pub reply_events : List String
  pub sent : Dict String (ReplyBody R)

-- `RpcReply`, with the id of its event.
pub record RpcReply (R : Type 0) : Type 0 where
  pub reply_event : String
  pub resp_body : Option (ReplyBody R)

module _ {R : Type 0} where
  unfoldable pub get_reply_event : String → ReplyListener R → ReplyListener R
  get_reply_event correlation_id listener = record listener {
    reply_events = add correlation_id listener.reply_events;
    sent = remove correlation_id listener.sent;
  }

  -- `client_event.send(body)` on the event that is popped, if there is one
  abbrev send_popped : Option String → ReplyBody R → ReplyListener R → ReplyListener R
  send_popped none body listener = listener
  send_popped (some id) body listener =
      if contains id listener.reply_events
      then record listener {
        reply_events = discard id listener.reply_events;
        sent = put id body listener.sent;
      }
      else listener

  -- With the record of what was acknowledged so far.
  unfoldable pub handle_message :
      {V : Type 0}
      → ReplyBody R
      → Message V
      → ReplyListener R × List (Effect R)
      → ReplyListener R × List (Effect R)
  handle_message body message (listener, log) =
      (send_popped message.correlation_id body listener, (ack_message message log).1)

  abbrev pub read_body : Registry → ReplyBody R → Result Failure (Option R)
  read_body registry body = elim body.error [
    | some error ↦ raised (remote (deserialize registry error))
    | none ↦ elim body.result [
      | some value ↦ returned value
      | none ↦ raised (local (key_error "result"))
    ]
  ]

  abbrev seen :
      Registry → RpcReply R → Option (ReplyBody R) → Option (Result Failure (Option R) × RpcReply R)
  seen registry reply none = none
  seen registry reply (some body) =
      some (read_body registry body, record reply { resp_body = some body })

  -- `result`; none while it waits for the event.
  unfoldable pub result :
      Registry → RpcReply R → ReplyListener R → Option (Result Failure (Option R) × RpcReply R)
  result registry reply listener = elim reply.resp_body [
    | some body ↦ some (read_body registry body, reply)
    | none ↦ seen registry reply (get reply.reply_event listener.sent)
  ]

-- What is handed to the publisher.
pub record Request (V : Type 0) : Type 0 where
  pub body : Body V
  pub routing_key : String
  pub mandatory : Bool
  pub reply_to : String
  pub correlation_id : String
  pub headers : Dict String (Datum V)

-- UndeliverableMessage, or another exception of the publisher.
pub data PublishFailure : Type 0 where
  undeliverable : PublishFailure
  broken : Exc → PublishFailure

module _ {V : Type 0} (service_name method_name : String) where
  abbrev pub request : String → String → List V → Dict String V → Dict String (Datum V) → Request V
  request reply_to correlation_id args kwargs entries = record {
    body = record { args = some args; kwargs = some kwargs };
    routing_key = join_dot service_name method_name;
    mandatory = true;
    reply_to = reply_to;
    correlation_id = correlation_id;
    headers = get_message_headers entries;
  }

-- A proxy of a method; `fresh` is a new call id for the caller's context, and `correlation_id` the
-- uuid of the call.
module _ {V R : Type 0} (service_name method_name : String) (type_error : Exc)
    (publish : Request V → Option PublishFailure) where
  abbrev published : String → Option PublishFailure → Result Failure (RpcReply R)
  published correlation_id none =
      returned (record { reply_event = correlation_id; resp_body = none })
  published correlation_id (some undeliverable) = raised (unknown_service service_name)
  published correlation_id (some (broken exc)) = raised (local exc)

  -- `_call`; `type_error` is raised when the caller's stack of call ids is no list.
  abbrev call_with :
      String
      → List V
      → Dict String V
      → Option (Dict String (Datum V))
      → ReplyListener R
      → Result Failure (RpcReply R) × ReplyListener R
  call_with correlation_id args kwargs none listener = (raised (local type_error), listener)
  call_with correlation_id args kwargs (some entries) listener =
      let sent =
        request service_name method_name listener.routing_key correlation_id args kwargs entries in
      (published correlation_id (publish sent), get_reply_event correlation_id listener)

  unfoldable pub call :
      String
      → String
      → List V
      → Dict String V
      → WorkerContext V
      → ReplyListener R
      → Result Failure (RpcReply R) × ReplyListener R
  unfolding get_reply_event
  call fresh correlation_id args kwargs caller listener =
      call_with correlation_id args kwargs (context_data fresh caller).0 listener
