-- ===== src/Messaging/Publishing.antt =====
-- `Publisher` of nameko/messaging.py, the dependency that publishes for a service, over the publisher
-- of nameko/amqp/publish.py.
use nameko.Prelude.{ℕ, String, string_eq, Bool, Option, none, some, List, [], ◌∷◌, ◌++◌}
use nameko.Prelude.Dict.{Dict, put, or_else}
use nameko.Action.{Result}
use nameko.Amqp.Publish.{
  Publisher, Options, Sent, Setting, Trouble, Failure, given, class_defaults, new_publisher,
  publish,
}

-- What is declared before publishing: an exchange, or a queue with the exchange that it is bound to.
pub data Entity : Type 0 where
  exchange : String → Entity
  queue : String → String → Entity

-- Other keyword arguments of a publisher: an exchange or None, and the texts.
pub data Argument : Type 0 where
  to_exchange : Option String → Argument
  str : String → Argument

abbrev pub entities : Option Entity → List Entity
entities none = []
entities (some e) = e ∷ []

-- The attribute `exchange` of a queue, for the deprecated argument `queue`
abbrev pub exchange_of : Option Entity → Option String
exchange_of none = none
exchange_of (some (exchange name)) = none
exchange_of (some (queue name bound_to)) = some bound_to

abbrev named : Option String → Option Entity
named none = none
named (some name) = some (exchange name)

-- Class attributes of a subclass, which may stand for options.
pub record Compat : Type 0 where
  pub retry : Option Bool
  pub retry_policy : Option (Dict String ℕ)
  pub use_confirms : Option Bool

pub record Provider (H : Type 0) : Type 0 where
  pub exchange_name : Option String
  pub declare : List Entity
  pub options : Options Entity H Argument

module _ {H : Type 0} where
  -- `__init__`
  unfoldable pub new_provider :
      Compat
      → Option String
      → Option Entity
      → Option (List Entity)
      → Options Entity H Argument
      → Provider H
  new_provider compat exchange_name old_queue declare o = record {
    exchange_name = or_else exchange_name (exchange_of old_queue);
    declare = (given declare [] ++ entities (named exchange_name)) ++ entities old_queue;
    options = record o {
      retry = or_else compat.retry o.retry;
      retry_policy = or_else compat.retry_policy o.retry_policy;
      use_confirms = or_else compat.use_confirms o.use_confirms;
    };
  }

  -- `setup`, for the container's broker and serializer: what is declared at once, and the publisher.
  unfoldable pub setup :
      String → Bool → String → Provider H → List Entity × Publisher Entity H Argument
  unfolding new_publisher
  setup amqp_uri ssl serializer p = (
    p.declare,
    new_publisher (class_defaults amqp_uri ssl) (record p.options {
      serializer = some (given p.options.serializer serializer);
      declare = some p.declare;
      others = put "exchange" (to_exchange p.exchange_name) p.options.others;
    }),
  )

  -- The function that `get_dependency` makes: headers of the worker go with every message.
  unfoldable pub publish_for :
      {B : Type 0}
      → (Sent Entity H Argument B → Option Trouble)
      → Publisher Entity H Argument
      → Dict String H
      → B
      → Options Entity H Argument
      → Dict String Setting
      → Result Failure Unit × Sent Entity H Argument B × Dict String Setting
  unfolding publish
  publish_for producer p headers msg o shared =
      publish producer p msg o (record { extra_headers = some headers; transport_options = none })
        shared
