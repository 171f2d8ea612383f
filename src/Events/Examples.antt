-- ===== src/Events/Examples.antt =====
-- The theorems about nameko/events.py at concrete handlers.
use nameko.Prelude.{String, ◌≡◌, ◌↔◌, true, false, none, [], refl}
use nameko.Amqp.Publish.{Publisher}
use nameko.Messaging.Publishing.{Entity, Argument, Provider}
use nameko.Events
use nameko.Events.{EventHandler, Queue, service_pool, singleton, broadcast, queue_name}
use nameko.Events.Dispatch
use nameko.Events.Dispatch.{no_options, dispatch}
use nameko.Events.Dispatch.Delivery.{GoesTo, dispatch-GoesTo}

abbrev pooled : EventHandler
pooled = record {
  source_service = "orders";
  event_type = "placed";
  handler_type = service_pool;
  reliable_delivery = true;
  service_name = "mail";
  method_name = "send";
  own_identifier = none;
}

abbrev broadcasting : EventHandler
broadcasting = record pooled { handler_type = broadcast; reliable_delivery = false }

abbrev alone : EventHandler
alone = record pooled { handler_type = singleton }

-- A dispatcher of the service "orders", and a handler of its event "placed".
abbrev provider : Provider String
provider = record { exchange_name = none; declare = []; options = no_options }

abbrev publisher : Publisher Entity String Argument
publisher = (Dispatch.setup "orders" "amqp://" false "json" provider).1

abbrev on_placed : EventHandler
on_placed = record {
  source_service = "orders";
  event_type = "placed";
  handler_type = singleton;
  reliable_delivery = true;
  service_name = "stock";
  method_name = "reserve";
  own_identifier = none;
}

abbrev placed_queue : Queue
placed_queue = record {
  name = "evt-orders-placed";
  exchange = "orders.events";
  routing_key = "placed";
  durable = true;
  auto_delete = false;
  exclusive = false;
}

dispatch-GoesTo_example :
    GoesTo {B = String} placed_queue (dispatch (λ _. none) publisher "orders" [] "placed" "{}" []).1
    ↔ ((on_placed.source_service ≡ "orders") × (on_placed.event_type ≡ "placed"))
unfolding Events.setup
dispatch-GoesTo_example =
    dispatch-GoesTo (λ _. none) publisher "orders" [] "placed" "{}" [] "u" on_placed placed_queue
      refl
