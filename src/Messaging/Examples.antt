-- ===== src/Messaging/Examples.antt =====
-- The theorems about nameko/messaging.py at concrete contexts, messages and consumers.
use nameko.Prelude.{ℕ, ℕ_eq, Option, true, false, not, ◌&&◌, ◌||◌, arith}
use nameko.Prelude.Set.{contains, add}
use nameko.Action.{returned}
use nameko.Exceptions.{nil}
use nameko.Exceptions.Registry.{Exc}
use nameko.Messaging.Delivery.{Message, up, requeued}
use nameko.Messaging.Consumers.{Job, consume, consume-settles}
use nameko.Messaging.Consuming.{
  QueueConsumer, new_queue_consumer, register_provider, unregister_provider, on_iteration,
  get_consumers, on_consume_ready, Reach, here, next, registers, connects, gets_ready, unregisters,
}
use nameko.Messaging.Consuming.Ending.{on_iteration-safe, stop-follows}
use nameko.Prelude.{String, ◌≡◌, refl, none, some, [], ◌∷◌, arith, string_eq}
use nameko.Prelude.Dict.{Dict, get, put, IsDict}
use nameko.Containers.Context.{
  WorkerContext, Datum, null, ids, scalar, call_id, new_context, parent_ids,
  call_id_stack_context_key,
}
use nameko.Containers.Context.Trail.{IsContext, new_context-IsContext, context_data-eq-put, trail}
use nameko.Messaging.Headers.{get_message_headers}
use nameko.Messaging.Headers.Chain.{receive, IsCallee, receive-IsCallee}

abbrev given : Dict String (Datum String)
given = ("call_id_stack", ids ("a.x.0" ∷ [])) ∷ ("user_id", scalar "7") ∷ ("language", null) ∷ []

given-IsDict : IsDict given
unfolding get
given-IsDict = (refl, (refl, (refl, tt)))

abbrev caller : WorkerContext String
caller = new_context "b" "y" none none none (some given)

caller-IsContext : IsContext caller
unfolding get
caller-IsContext =
    new_context-IsContext "b" "y" none none none given ("a.x.0" ∷ []) given-IsDict refl

abbrev handed : Dict String (Datum String)
handed = put call_id_stack_context_key (ids (trail (call_id "1" caller).0 caller)) caller.context

receive-IsCallee_example :
    IsCallee "c" "z" none none none
      (call_id "1" caller).0
      caller
      (receive "c" "z" none none none (get_message_headers handed))
receive-IsCallee_example =
    receive-IsCallee "c" "z" none none none "1" caller caller-IsContext handed
      (context_data-eq-put "1" caller caller-IsContext)

caller_parents : parent_ids caller.parent_stack ≡ "a.x.0" ∷ []
unfolding new_context get
caller_parents = refl

abbrev failure : Exc
failure = record {
  type = record { module_name = "builtins"; name = "ValueError" };
  args = nil;
  as_text = some "";
}

abbrev failing : Job String String → Option String × Option Exc
failing job = (none, some failure)

abbrev consumed : Message String
consumed = record {
  tag = 4;
  routing_key = "spam";
  headers = [];
  content_type = none;
  reply_to = none;
  correlation_id = none;
  link = up;
}

consume-settles_example :
    consume true false failing "payload" consumed [] ≡ (returned tt, requeued 4 ∷ [])
consume-settles_example = consume-settles true false failing "payload" consumed [] refl

-- Provider 1 registers, gets a consumer and asks to be unregistered.
abbrev registered : QueueConsumer
registered = register_provider 1 new_queue_consumer

abbrev running : QueueConsumer
running = on_consume_ready (get_consumers registered)

abbrev asked : QueueConsumer
asked = record running { pending_remove_providers = 1 ∷ [] }

asked-Reach : Reach new_queue_consumer asked
unfolding register_provider get_consumers on_consume_ready unregister_provider contains add
asked-Reach =
    next (next (next (next here (registers 1 refl refl)) (connects refl)) (gets_ready refl))
      (unregisters 1 asked refl refl refl)

on_iteration-safe_example :
    (t : QueueConsumer) × (on_iteration asked ≡ returned t)
    × ((asked.should_stop && contains 1 asked.providers && not (contains 1 asked.released)) ≡ false)
on_iteration-safe_example = on_iteration-safe 1 asked-Reach

asked_all :
    (p : ℕ)
    → contains p asked.providers ≡ true
    → (contains p asked.pending_remove_providers || contains p asked.released) ≡ true
unfolding register_provider get_consumers on_consume_ready contains add
asked_all p h = ground (arith, h)

stop-follows_example :
    (t : QueueConsumer) × (on_iteration asked ≡ returned t) × (t.should_stop ≡ true)
stop-follows_example = stop-follows asked-Reach asked_all
