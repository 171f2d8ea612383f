-- ===== src/Rpc/Examples.antt =====
-- The theorems about nameko/rpc.py at a concrete service and its requests.
use nameko.Prelude.{
  ℕ_eq, true, String, ◌≡◌, refl, false, Option, none, some, List, [], ◌∷◌, string_eq,
}
use mathlib.Core.Option
use nameko.Prelude.Dict.{get, put, remove}
use nameko.Prelude.Set.{contains, add}
use nameko.Containers.Context.{
  WorkerContext, ids, call_id_stack_context_key, new_context, context_data, call_id_stack, call_id,
  deque_extend, deque_append,
}
use nameko.Rpc.Client.{call, result, ReplyBody, ReplyListener, get_reply_event}
use nameko.Rpc.Client.Replies.{Event, calls, arrives, happen_all, get_reply_event-answered}
use nameko.Rpc.RoundTrip.{Call, Reaches, unread, sent, arrived, listener_after, call-answered}
use nameko.Prelude.Text.{join_dot}
use nameko.Action.{returned, raised}
use nameko.Exceptions.{text, mapping, iterable, nil, cons, item, end}
use nameko.Exceptions.Registry.{Exc}
use nameko.Exceptions.Safe.{has_plain_keys, plain_values}
use nameko.Messaging.Delivery.{Message, Reply, up, acked, replied}
use nameko.Rpc.Server.{Body, Job, Server, unhashable_error, handle_result, serve}
use nameko.Rpc.Server.Replying.{IsAnswerable, handle_result_unanswered}
use nameko.Rpc.Server.Requests.{refusal}
use nameko.Rpc.Server.Settling.{IsSound, Settled, serve_settles}
use nameko.Rpc.Registration.{
  RpcConsumer, new_rpc_consumer, setup, register_provider, minus, unregister_provider, sets_up,
  registers, unregisters, Reach, here, next,
}

abbrev server : Server String String
server = record {
  service_name = "spam";
  providers = "fry" ∷ "eat" ∷ [];
  being_killed = false;
  getcallargs = λ method args kwargs. none;
  type_to_name = λ content_type. some "json";
  dumps = λ serializer result. none;
  repr = λ result. none;
  publish = λ reply. none;
}

abbrev message : Message String
message = record {
  tag = 5;
  routing_key = "spam.eat";
  headers = [];
  content_type = some "application/json";
  reply_to = some "queue";
  correlation_id = some "abc";
  link = up;
}

abbrev body : Body String
body = record { args = some []; kwargs = some [] }

abbrev worker : Job String → Option String × Option Exc
worker job = (some job.method_name, none)

abbrev message-IsAnswerable : IsAnswerable server message
message-IsAnswerable = record {
  content_type = "application/json";
  serializer = "json";
  reply_to = "queue";
  typed = refl;
  known = refl;
  addressed = refl;
  connected = refl;
}

server-IsSound : IsSound server worker
server-IsSound = record { publishes = λ reply. refl; writes = λ job. (none, refl) }

-- ValueError({("a",): "b"})
abbrev unwritable : Exc
unwritable = record {
  type = record { module_name = "builtins"; name = "ValueError" };
  args = cons (mapping (item (iterable (cons (text "a") nil)) (text "b") end)) nil;
  as_text = some "{('a',): 'b'}";
}

unwritable_keys : plain_values unwritable.args ≡ false
unfolding has_plain_keys
unwritable_keys = refl

handle_result_unanswered_example :
    handle_result server message none (some unwritable) [] ≡ (raised unhashable_error, [])
handle_result_unanswered_example =
    handle_result_unanswered server message none unwritable [] unwritable_keys

accepted : refusal server body message ≡ none
unfolding join_dot
accepted = refl

serve_settles_example :
    ((serve server worker body message []).0 ≡ returned tt)
    × Settled server worker message [] (serve server worker body message []).1
serve_settles_example =
    serve_settles server worker server-IsSound body message message-IsAnswerable []

-- The second request names no method of the service.
abbrev requests : List (Body String × Message String)
requests = (body, message) ∷ (body, record message { tag = 6; routing_key = "spam.burn" }) ∷ []

-- A caller without context data.
abbrev caller : WorkerContext String
caller = new_context "cook" "dinner" none none none none

abbrev eating : Call String
eating = record {
  method = "eat";
  args = "egg" ∷ [];
  kwargs = [];
  entries = (call_id_stack_context_key, ids ("cook.dinner.0" ∷ [])) ∷ [];
  correlation_id = "c1";
  tag = 7;
  content_type = "application/json";
}

abbrev listener : ReplyListener String
listener = record { routing_key = "replies"; reply_events = "c0" ∷ []; sent = [] }

eating-Reaches : Reaches server worker eating listener
unfolding contains
eating-Reaches = record {
  serializer = "json";
  error = none;
  known = refl;
  has = refl;
  fits = refl;
  alive = refl;
  publishes = λ reply. refl;
  writes = refl;
}

caller_entries : (context_data "0" caller).0 ≡ some eating.entries
unfolding context_data call_id_stack call_id new_context deque_extend deque_append join_dot put
    remove get
caller_entries = refl

call-answered_example :
    (reply : Reply String) × (call "spam" "eat" unhashable_error
        (λ sent. none)
        "0"
        "c1"
        ("egg" ∷ [])
        []
        caller
        listener
      ≡ (returned (unread server worker eating listener), get_reply_event "c1" listener))
    × (serve server worker
          (sent server worker eating listener).body
          (arrived server worker eating listener)
          []
        ≡ (returned tt, replied reply ∷ acked 7 ∷ []))
    × (reply.routing_key ≡ "replies")
    × (Option.map
          (λ x. x.0)
          (result []
            (unread server worker eating listener)
            (listener_after server worker eating listener reply 8 up))
        ≡ some (returned (some "eat")))
unfolding eating-Reaches
call-answered_example =
    call-answered server worker eating listener unhashable_error (λ sent. none) "0" caller [] 8 up
      caller_entries refl eating-Reaches

-- Two calls, with replies to both and to neither, out of order.
abbrev reply_to_c1 : ReplyBody String
reply_to_c1 = record { result = some (some "one"); error = none }

abbrev reply_to_c2 : ReplyBody String
reply_to_c2 = record { result = some (some "two"); error = none }

abbrev events : List (Event String String)
events =
    calls "c2"
    ∷ arrives (record message { correlation_id = some "c2" }) reply_to_c2
    ∷ arrives (record message { correlation_id = none }) reply_to_c2
    ∷ arrives (record message { correlation_id = some "c1" }) reply_to_c1
    ∷ arrives (record message { correlation_id = some "c1" }) reply_to_c2
    ∷ []

get_reply_event-answered_example :
    get "c1" (happen_all events (get_reply_event "c1" listener, [])).0.sent ≡ some reply_to_c1
get_reply_event-answered_example = get_reply_event-answered "c1" events listener [] (refl, tt)

-- Two methods are unregistered one after the other; the second call goes to the queue consumer.
abbrev two_registered : RpcConsumer
two_registered = record new_rpc_consumer {
  set_up = true;
  providers = 2 ∷ 1 ∷ [];
  providers_registered = true;
}

abbrev both_asked : RpcConsumer
both_asked = record two_registered {
  unregistering_providers = 2 ∷ 1 ∷ [];
  leaving = 2 ∷ [];
  waiting = 1 ∷ [];
  asked = 1;
}

abbrev both_ask : Reach new_rpc_consumer both_asked
unfolding setup register_provider unregister_provider minus add contains
both_ask =
    next
      (next (next (next (next here sets_up) (registers 1 refl refl)) (registers 2 refl refl))
        (unregisters 1 refl refl))
      (unregisters 2 refl refl)
