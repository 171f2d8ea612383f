-- ===== src/Rpc/RoundTrip.antt =====
-- A call from one service to another (nameko/rpc.py), from the proxy of the caller to the worker of
-- the service and back.
use nameko.Prelude.{
  ℕ, String, ◌≡◌, true, false, Option, none, some, List, [], ◌∷◌, string_eq, ◌==◌, arith, refl, inl,
  inr, Bool-cases, ==-refl,
}
use nameko.Prelude.Dict.{Dict, get}
use nameko.Prelude.Set.{contains}
use nameko.Prelude.Text.{join_dot, join_dot-injective}
use nameko.Action.{Result, returned, raised}
use nameko.Containers.Context.{Datum, WorkerContext, context_data}
use nameko.Exceptions.{ok}
use nameko.Exceptions.Registry.{Exc, Serialized, Registry, deserialize}
use nameko.Messaging.Headers.{get_message_headers, unpack_message_headers}
use nameko.Messaging.Delivery.{Message, Link, up, Reply, Effect, acked, replied}
use mathlib.Core.Option
use nameko.Rpc.Server.{
  handle_message as receive_request, get_provider_for_method, provider_handle_message, Job, Server,
  find_provider, serve,
}
use nameko.Rpc.Server.Replying.{
  IsAnswerable, unserializable_entry, written, answer, handle_result_answers,
}
use nameko.Rpc.Client.Replies.{arrives, get_reply_event-answered}
use nameko.Rpc.Client.{
  ReplyBody, PublishFailure, Failure, remote, ReplyListener, RpcReply, Request, request, call,
  result, get_reply_event, handle_message,
}

-- What the broker delivers of a request, and of a reply.
module _ {V : Type 0} where
  abbrev pub delivered : Request V → ℕ → String → Message V
  delivered sent tag content_type = record {
    tag = tag;
    routing_key = sent.routing_key;
    headers = sent.headers;
    content_type = some content_type;
    reply_to = some sent.reply_to;
    correlation_id = some sent.correlation_id;
    link = up;
  }

module _ {R : Type 0} where
  abbrev pub reply_body : Reply R → ReplyBody R
  reply_body reply = record { result = some reply.result; error = reply.error }

find_provider_complete :
    (service method : String) (l : List String)
    → contains method l ≡ true
    → find_provider service (join_dot service method) l ≡ some method
unfolding contains
find_provider_complete service method [] h = cc
find_provider_complete service method (name ∷ rest) h = elim (Bool-cases (name == method)) [
  | inl same ↦
      ground (arith, same, string_eq.equal_iff name method, ==-refl (join_dot service method))
  | inr other ↦ ground (
    arith,
    other,
    find_provider_complete service method rest (ground (arith, h, other)),
    string_eq.equal_iff (join_dot service name) (join_dot service method),
    join_dot-injective service name method,
    string_eq.equal_iff name method,
  )
]

-- The message that a reply is delivered in.
abbrev pub delivered_reply : {V R : Type 0} → Reply R → ℕ → Link → Message V
delivered_reply reply tag link = record {
  tag = tag;
  routing_key = reply.routing_key;
  headers = [];
  content_type = none;
  reply_to = none;
  correlation_id = reply.correlation_id;
  link = link;
}

-- What the caller sees of a worker's outcome: what `dumps` raises on the result comes first.
abbrev pub caller_sees :
    {R : Type 0}
    → Registry
    → Option String
    → Option R
    → Option Serialized
    → Option Exc
    → Result Failure (Option R)
caller_sees registry repr result error (some failed) =
    raised (remote (deserialize registry (unserializable_entry repr)))
caller_sees registry repr result (some error) none = raised (remote (deserialize registry error))
caller_sees registry repr result none none = returned result

-- A call: the method and its arguments, the caller's context data, the uuid, and the tag and the
-- content type under which the broker delivers it.
pub record Call (V : Type 0) : Type 0 where
  pub method : String
  pub args : List V
  pub kwargs : Dict String V
  pub entries : Dict String (Datum V)
  pub correlation_id : String
  pub tag : ℕ
  pub content_type : String

module _ {V R : Type 0} (server : Server V R) (worker : Job V → Option R × Option Exc) (c : Call V)
    (listener : ReplyListener R) where
  abbrev pub sent : Request V
  sent =
      request server.service_name c.method listener.routing_key c.correlation_id c.args c.kwargs
        c.entries

  abbrev pub arrived : Message V
  arrived = delivered sent c.tag c.content_type

  abbrev pub job : Job V
  job = record {
    method_name = c.method;
    args = c.args;
    kwargs = c.kwargs;
    context_data = unpack_message_headers (get_message_headers c.entries);
  }

  -- The service has the method, and its arguments fit; its container is not being killed; it knows
  -- the content type; its publisher does not fail; the worker's exception is serializable.
  pub record Reaches : Type 0 where
    pub serializer : String
    pub error : Option Serialized
    pub known : server.type_to_name c.content_type ≡ some serializer
    pub has : contains c.method server.providers ≡ true
    pub fits : server.getcallargs c.method c.args c.kwargs ≡ none
    pub alive : server.being_killed ≡ false
    pub publishes : (reply : Reply R) → server.publish reply ≡ none
    pub writes : written (worker job).1 ≡ ok error

  arrived-IsAnswerable : Reaches → IsAnswerable server arrived
  arrived-IsAnswerable r = record {
    content_type = c.content_type;
    serializer = r.serializer;
    reply_to = listener.routing_key;
    typed = refl;
    known = r.known;
    addressed = refl;
    connected = refl;
  }

  handle_message-arrived :
      Reaches → receive_request server sent.body arrived [] ≡ (returned (some job), [])
  unfolding receive_request get_provider_for_method provider_handle_message
  handle_message-arrived r =
      let found = find_provider_complete server.service_name c.method server.providers r.has in
      ground (arith, found, r.fits, r.alive)

  abbrev pub answered : Reaches → Reply R
  unfolding arrived-IsAnswerable
  answered r = answer server arrived (arrived-IsAnswerable r) (worker job).0 r.error

  serve-arrived :
      (r : Reaches)
      → serve server worker sent.body arrived []
        ≡ (returned tt, replied (answered r) ∷ acked c.tag ∷ [])
  unfolding serve answered arrived-IsAnswerable
  serve-arrived r =
      let step =
        handle_result_answers server arrived (arrived-IsAnswerable r) (worker job).0 (worker job).1
          r.error [] r.writes (r.publishes _) in
      ground (arith, handle_message-arrived r, step)

  -- Any delivery of that reply, under its correlation id, makes the caller see the outcome.
  reply_held :
      (r : Reaches) (m : Message V) (log : List (Effect R))
      → m.correlation_id ≡ (answered r).correlation_id
      → get c.correlation_id
          (handle_message
            (reply_body (answered r))
            m
            (get_reply_event c.correlation_id listener, log)).0.sent
        ≡ some (reply_body (answered r))
  unfolding answered arrived-IsAnswerable
  reply_held r m log e =
      let first =
        get_reply_event-answered c.correlation_id (arrives m (reply_body (answered r)) ∷ [])
          listener log tt in
      ground (arith, first, e, ==-refl c.correlation_id)

  result-answered :
      (r : Reaches) (registry : Registry) (m : Message V) (log : List (Effect R))
      → m.correlation_id ≡ (answered r).correlation_id
      → Option.map
          (λ x. x.0)
          (result registry
            (record { reply_event = c.correlation_id; resp_body = none })
            (handle_message
              (reply_body (answered r))
              m
              (get_reply_event c.correlation_id listener, log)).0)
        ≡ some (
            caller_sees registry
              (server.repr (worker job).0)
              (worker job).0
              r.error
              (server.dumps r.serializer (worker job).0))
  unfolding result answered arrived-IsAnswerable
  result-answered r registry m log e = ground (arith, reply_held r m log e)

  abbrev pub unread : RpcReply R
  unread = record { reply_event = c.correlation_id; resp_body = none }

  -- The listener once the reply has arrived, as a message with this tag and link.
  abbrev pub listener_after : Reply R → ℕ → Link → ReplyListener R
  listener_after reply tag link =
      let m : Message V = delivered_reply reply tag link in
      (handle_message (reply_body reply) m (get_reply_event c.correlation_id listener, [])).0

  -- Let a call be published without failure, and reach a service that can answer it. The caller
  -- waits on the event of its uuid; the service handles the request, runs the worker for the method
  -- with the caller's arguments and headers, sends one reply to the caller's queue and acknowledges
  -- the request; and when that reply has arrived the caller sees the worker's result, or the
  -- deserialized exception, or that the result could not be serialized.
  pub call-answered :
      (type_error : Exc) (publish : Request V → Option PublishFailure) (fresh : String)
      (caller : WorkerContext V) (registry : Registry) (tag : ℕ) (link : Link)
      → (context_data fresh caller).0 ≡ some c.entries
      → publish sent ≡ none
      → (r : Reaches)
      → (reply : Reply R) × (call server.service_name c.method type_error publish fresh
            c.correlation_id c.args c.kwargs caller listener
          ≡ (returned unread, get_reply_event c.correlation_id listener))
        × (serve server worker sent.body arrived []
            ≡ (returned tt, replied reply ∷ acked c.tag ∷ []))
        × (reply.routing_key ≡ listener.routing_key)
        × (Option.map (λ x. x.0) (result registry unread (listener_after reply tag link))
            ≡ some (
                caller_sees registry
                  (server.repr (worker job).0)
                  (worker job).0
                  r.error
                  (server.dumps r.serializer (worker job).0)))
  unfolding call answered arrived-IsAnswerable
  call-answered type_error publish fresh caller registry tag link entries published r = (
    answered r,
    ground (arith, entries, published),
    serve-arrived r,
    refl,
    result-answered r registry (delivered_reply (answered r) tag link) [] refl,
  )
