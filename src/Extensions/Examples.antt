-- ===== src/Extensions/Examples.antt =====
-- The theorems about the binding of extensions at a concrete service: an rpc entrypoint, whose
-- consumer is shared and holds the shared queue consumer, and an event handler with a queue consumer.
use nameko.Prelude.{String, ◌≡◌, none, some, [], ◌∷◌, refl}
use nameko.Prelude.Dict.{get, put}
use nameko.Exceptions.{nil}
use nameko.Action.{returned}
use nameko.Extensions.{Kind, Extension, extension, end, member, Host, bind}
use nameko.Extensions.Saved.{IsSound}
use nameko.Extensions.Binding.{no_more, and_bind, bind-shares}

abbrev shared : String → Kind
shared name = record { class_name = name; params = nil; sharing_key = some name }

abbrev single : String → Kind
single name = record { class_name = name; params = nil; sharing_key = none }

abbrev queue_consumer : Extension
queue_consumer = extension 0 (shared "QueueConsumer") none end

abbrev rpc_consumer : Extension
rpc_consumer = extension 1 (shared "RpcConsumer") none (member "queue_consumer" queue_consumer end)

abbrev rpc : Extension
rpc = extension 2 (single "Rpc") none (member "rpc_consumer" rpc_consumer end)

abbrev event_handler : Extension
event_handler =
    extension 3 (single "EventHandler") none (member "queue_consumer" queue_consumer end)

abbrev host : Host
host = record { self = 7; shared_extensions = []; next = 10 }

host-IsSound : IsSound host
unfolding get
host-IsSound = record { shared_bound = λ key e. cc; shared_keyed = λ key e. cc }

abbrev bound_consumer : Extension
bound_consumer = extension 10 (shared "QueueConsumer") (some 7) end

abbrev with_consumer : Host
with_consumer = record {
  self = 7;
  shared_extensions = ("QueueConsumer", bound_consumer) ∷ [];
  next = 11;
}

abbrev with_handler : Host
with_handler = record with_consumer { next = 12 }

bind-shares_example : bind queue_consumer with_handler ≡ returned (bound_consumer, with_handler)
unfolding bind get put
bind-shares_example =
    bind-shares queue_consumer queue_consumer bound_consumer "QueueConsumer" host with_consumer
      with_handler host-IsSound (refl, tt) refl refl refl
      (and_bind event_handler
        (extension 11 (single "EventHandler") (some 7) (member "queue_consumer" bound_consumer end))
        no_more (refl, ((refl, tt), tt)) refl)
