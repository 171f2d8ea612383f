-- ===== src/Events.antt =====
-- `EventHandler` of nameko/events.py: the queue that a handler consumes from.
mod Examples
pub mod Dispatch
pub mod Queues
use Prim.Native.String.{◌++◌}
use nameko.Prelude.{String, Bool, true, false, not, Option, none, some, if◌then◌else◌}
use nameko.Prelude.Text.{join_dot}
use nameko.Action.{Result, returned, raised}

-- The constants, which `handler_type` is compared to by identity, or another value.
pub data HandlerType : Type 0 where
  service_pool singleton broadcast other_type : HandlerType

-- The service and method that handle the event are those of the container and the entrypoint.
-- `own_identifier` is the `broadcast_identifier` of a subclass, if it overrides the property.
pub record EventHandler : Type 0 where
  pub source_service : String
  pub event_type : String
  pub handler_type : HandlerType
  pub reliable_delivery : Bool
  pub service_name : String
  pub method_name : String
  pub own_identifier : Option String

-- EventHandlerConfigurationError, and the UnboundLocalError for an unknown handler type.
pub data Misconfigured : Type 0 where
  needs_identifier no_queue_name : Misconfigured

pub record Queue : Type 0 where
  pub name : String
  pub exchange : String
  pub routing_key : String
  pub durable : Bool
  pub auto_delete : Bool
  pub exclusive : Bool

-- The property `broadcast_identifier` of the class itself; `fresh` is the uuid.
unfoldable pub broadcast_identifier : String → EventHandler → Result Misconfigured (Option String)
broadcast_identifier fresh h = elim h.handler_type [
  | broadcast ↦ if h.reliable_delivery then raised needs_identifier else returned (some fresh)
  | service_pool ↦ returned none
  | singleton ↦ returned none
  | other_type ↦ returned none
]

-- str.format writes None as "None".
abbrev pub written : Option String → String
written none = "None"
written (some s) = s

-- 'evt-{}-{}'.format(source_service, event_type)
abbrev pub singleton_name : String → String → String
singleton_name source event = "evt-" ++ (source ++ ("-" ++ event))

-- 'evt-{}-{}--{}.{}'.format(source_service, event_type, service_name, method_name)
abbrev pub pool_name : String → String → String → String → String
pool_name source event service method =
    (singleton_name source event ++ "--") ++ join_dot service method

abbrev identified : String → EventHandler → Result Misconfigured (Option String)
identified fresh h = elim h.own_identifier [
  | some own ↦ returned (some own)
  | none ↦ broadcast_identifier fresh h
]

abbrev with_identifier :
    EventHandler → Result Misconfigured (Option String) → Result Misconfigured String
with_identifier h (raised e) = raised e
with_identifier h (returned identifier) = returned (
    pool_name h.source_service h.event_type h.service_name h.method_name
    ++ ("-" ++ written identifier))

unfoldable pub queue_name : String → EventHandler → Result Misconfigured String
unfolding broadcast_identifier
queue_name fresh h = elim h.handler_type [
  | service_pool ↦ returned (pool_name h.source_service h.event_type h.service_name h.method_name)
  | singleton ↦ returned (singleton_name h.source_service h.event_type)
  | broadcast ↦ with_identifier h (identified fresh h)
  | other_type ↦ raised no_queue_name
]

abbrev pub is_broadcast : HandlerType → Bool
is_broadcast broadcast = true
is_broadcast _ = false

-- '{}.events'.format(source_service)
abbrev pub event_exchange : String → String
event_exchange source = source ++ ".events"

abbrev queue_of : EventHandler → Result Misconfigured String → Result Misconfigured Queue
queue_of h (raised e) = raised e
queue_of h (returned name) = returned (record {
  name = name;
  exchange = event_exchange h.source_service;
  routing_key = h.event_type;
  durable = true;
  auto_delete = not h.reliable_delivery;
  exclusive = if h.reliable_delivery then false else is_broadcast h.handler_type;
})

-- `setup`, up to the call of the base class
unfoldable pub setup : String → EventHandler → Result Misconfigured Queue
unfolding queue_name
setup fresh h = queue_of h (queue_name fresh h)
