-- ===== src/Events/Dispatch.antt =====
-- `EventDispatcher` of nameko/events.py, over the publisher of nameko/messaging.py.
pub mod Delivery
use nameko.Prelude.{String, string_eq, Bool, Option, none, some, List, [], ◌∷◌, ◌++◌}
use nameko.Prelude.Dict.{Dict, put}
use nameko.Action.{Result}
use nameko.Amqp.Publish.{Publisher, Options, Sent, Setting, Trouble, Failure}
use nameko.Messaging.Publishing
use nameko.Messaging.Publishing.{
  Entity, exchange, Argument, to_exchange, str, Provider, publish_for,
}
use nameko.Events.{event_exchange}

abbrev pub no_options : {E H A : Type 0} → Options E H A
no_options = record {
  use_confirms = none;
  delivery_mode = none;
  mandatory = none;
  priority = none;
  expiration = none;
  serializer = none;
  compression = none;
  retry = none;
  retry_policy = none;
  declare = none;
  headers = none;
  others = [];
}

module _ {H : Type 0} where
  -- `setup`: the exchange of the service's own events is declared and published to.
  unfoldable pub setup :
      String → String → Bool → String → Provider H → List Entity × Publisher Entity H Argument
  unfolding Publishing.setup
  setup service_name amqp_uri ssl serializer p =
      let own = event_exchange service_name in
      Publishing.setup amqp_uri ssl serializer
        (record p { exchange_name = some own; declare = p.declare ++ exchange own ∷ [] })

  -- The function that `get_dependency` makes
  unfoldable pub dispatch :
      {B : Type 0}
      → (Sent Entity H Argument B → Option Trouble)
      → Publisher Entity H Argument
      → String
      → Dict String H
      → String
      → B
      → Dict String Setting
      → Result Failure Unit × Sent Entity H Argument B × Dict String Setting
  unfolding publish_for
  dispatch producer p service_name headers event_type event_data shared =
      publish_for producer p headers event_data
        (record no_options {
          others =
              put "routing_key" (str event_type)
                (put "exchange" (to_exchange (some (event_exchange service_name))) []);
        })
        shared
