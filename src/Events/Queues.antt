-- ===== src/Events/Queues.antt =====
-- Which queues handlers get, and when two share one (nameko/events.py).
use Prim.Native.String.{◌++◌}
use text.Mathlib.TextLemmas.{append_assoc, append_cancel_left}
use nameko.Prelude.{
  String, ◌≡◌, ◌↔◌, Bool, true, false, not, ◌&&◌, Option, none, some, arith, refl, ◌∙◌, ap,
}
use nameko.Prelude.Text.{join_dot, join_dot-injective}
use nameko.Action.{Result, returned, raised}
use nameko.Events.{
  HandlerType, service_pool, singleton, broadcast, other_type, EventHandler, Misconfigured,
  needs_identifier, no_queue_name, Queue, broadcast_identifier, singleton_name, pool_name,
  queue_name, is_broadcast, event_exchange, setup,
}

-- A queue for the handler: durable; kept while no consumer is connected if delivery is reliable, and
-- exclusive for broadcasts only if it is not.
abbrev pub IsQueueFor : EventHandler → Queue → Type 0
IsQueueFor h q =
    (q.durable ≡ true)
    × (q.auto_delete ≡ not h.reliable_delivery)
    × (q.exclusive ≡ (is_broadcast h.handler_type && not h.reliable_delivery))
    × (q.routing_key ≡ h.event_type)
    × (q.exchange ≡ event_exchange h.source_service)

-- The handler types for which `setup` gives a queue, and those for which it raises.
abbrev pub Verdict : EventHandler → Result Misconfigured Queue → Type 0
Verdict h (returned q) = IsQueueFor h q
Verdict h (raised needs_identifier) =
    (h.handler_type ≡ broadcast) × (h.reliable_delivery ≡ true) × (h.own_identifier ≡ none)
Verdict h (raised no_queue_name) = h.handler_type ≡ other_type

module _ (fresh : String) where
  verdict :
      (source event : String) (type : HandlerType) (reliable : Bool) (service method : String)
      (own : Option String)
      → Verdict
          (record {
            source_service = source;
            event_type = event;
            handler_type = type;
            reliable_delivery = reliable;
            service_name = service;
            method_name = method;
            own_identifier = own;
          })
          (setup fresh (record {
            source_service = source;
            event_type = event;
            handler_type = type;
            reliable_delivery = reliable;
            service_name = service;
            method_name = method;
            own_identifier = own;
          }))
  unfolding setup queue_name broadcast_identifier
  verdict source event service_pool true service method own = (refl, refl, refl, refl, refl)
  verdict source event service_pool false service method own = (refl, refl, refl, refl, refl)
  verdict source event singleton true service method own = (refl, refl, refl, refl, refl)
  verdict source event singleton false service method own = (refl, refl, refl, refl, refl)
  verdict source event broadcast true service method none = (refl, refl, refl)
  verdict source event broadcast true service method (some i) = (refl, refl, refl, refl, refl)
  verdict source event broadcast false service method none = (refl, refl, refl, refl, refl)
  verdict source event broadcast false service method (some i) = (refl, refl, refl, refl, refl)
  verdict source event other_type reliable service method own = refl

  -- Every handler gets a queue that is durable, is deleted with its last consumer just when delivery
  -- is not reliable, is exclusive just for unreliable broadcasts, and is bound to the source's
  -- exchange under the event's type; except that a broadcast with reliable delivery and no identifier
  -- of its own is refused, and that an unknown handler type raises.
  pub setup-Verdict : (h : EventHandler) → Verdict h (setup fresh h)
  setup-Verdict h =
      verdict h.source_service h.event_type h.handler_type h.reliable_delivery h.service_name
        h.method_name h.own_identifier

pool_name-injective :
    (source event service m n : String)
    → pool_name source event service m ≡ pool_name source event service n
    → m ≡ n
pool_name-injective source event service m n e = join_dot-injective service m n (
    append_cancel_left (singleton_name source event ++ "--") (join_dot service m)
      (join_dot service n) e)

-- Two handlers of one service for one event of a source share the queue of a service pool just when
-- they are the same method.
pub pool-queue_name :
    (f g method : String) (h : EventHandler)
    → h.handler_type ≡ service_pool
    → (queue_name f h ≡ queue_name g (record h { method_name = method })) ↔ (h.method_name ≡ method)
unfolding queue_name
pool-queue_name f g method h e = (
  (λ same.
      pool_name-injective h.source_service h.event_type h.service_name h.method_name method
        (ground (arith, e, same))),
  (λ same. ground (arith, e, same)),
)

-- Two instances of a handler of unreliable broadcasts share a queue just when they drew the same uuid.
pub broadcast-queue_name :
    (f g : String) (h : EventHandler)
    → h.handler_type ≡ broadcast
    → h.reliable_delivery ≡ false
    → h.own_identifier ≡ none
    → (queue_name f h ≡ queue_name g h) ↔ (f ≡ g)
unfolding queue_name broadcast_identifier
broadcast-queue_name f g h e unreliable plain = (
  (λ same. append_cancel_left "-" f g (
      append_cancel_left (pool_name h.source_service h.event_type h.service_name h.method_name)
        ("-" ++ f) ("-" ++ g) (ground (arith, e, unreliable, plain, same)))),
  (λ same. ground (arith, e, unreliable, plain, same)),
)

-- Singleton handlers of different events get one queue when a dash moves from the name of the source
-- to the type of the event.
pub singleton-collides :
    (f g source middle event : String) (h : EventHandler)
    → h.handler_type ≡ singleton
    → queue_name f (record h { source_service = source ++ ("-" ++ middle); event_type = event })
      ≡ queue_name g (record h { source_service = source; event_type = middle ++ ("-" ++ event) })
unfolding queue_name
singleton-collides f g source middle event h e =
    let moved : (source ++ ("-" ++ middle)) ++ ("-" ++ event)
        ≡ source ++ ("-" ++ (middle ++ ("-" ++ event))) =
      append_assoc source ("-" ++ middle) ("-" ++ event)
      ∙ ap (λ s. source ++ s) (append_assoc "-" middle ("-" ++ event)) in
    ground (arith, e, moved)
