-- ===== src/Events/Dispatch/Delivery.antt =====
-- Which handlers an event goes to (nameko/events.py).
use text.Mathlib.TextLemmas.{append_cancel_right}
use nameko.Prelude.{String, string_eq, ◌≡◌, ◌↔◌, Option, some, [], ◌∷◌, refl, sym, ◌∙◌, ap, subst}
use nameko.Prelude.Dict.{Dict, get, put, get-update}
use nameko.Action.{Result, returned}
use nameko.Amqp.Publish.{Publisher, Sent, Setting, Trouble}
use nameko.Messaging.Publishing.{Entity, Argument, to_exchange, str}
use nameko.Events
use nameko.Events.{EventHandler, Misconfigured, Queue, event_exchange}
use nameko.Events.Queues.{IsQueueFor, Verdict, setup-Verdict}
use nameko.Events.Dispatch.{dispatch}

queue_bound :
    (fresh : String) (h : EventHandler) (q : Queue)
    → Events.setup fresh h ≡ returned q
    → (q.routing_key ≡ h.event_type) × (q.exchange ≡ event_exchange h.source_service)
queue_bound fresh h q e =
    let is_for : IsQueueFor h q =
      subst (λ (r : Result Misconfigured Queue). Verdict h r) e (setup-Verdict fresh h) in
    (is_for.3, is_for.4)

module _ {H B : Type 0} where
  -- A message goes to the exchange that a queue is bound to, under the key that it is bound with.
  abbrev pub GoesTo : Queue → Sent Entity H Argument B → Type 0
  GoesTo q sent =
      (get "exchange" sent.publish_kwargs ≡ some (to_exchange (some q.exchange)))
      × (get "routing_key" sent.publish_kwargs ≡ some (str q.routing_key))

  -- Where an event is sent to.
  dispatch_lem :
      (producer : Sent Entity H Argument B → Option Trouble) (p : Publisher Entity H Argument)
      (service_name : String) (headers : Dict String H) (event_type : String) (event_data : B)
      (shared : Dict String Setting)
      → let sent = (dispatch producer p service_name headers event_type event_data shared).1 in
        (get "exchange" sent.publish_kwargs
          ≡ some (to_exchange (some (event_exchange service_name))))
        × (get "routing_key" sent.publish_kwargs ≡ some (str event_type))
  unfolding dispatch get put
  dispatch_lem producer p service_name headers event_type event_data shared =
      let own : Dict String Argument =
        ("exchange", to_exchange (some (event_exchange service_name)))
        ∷ ("routing_key", str event_type)
        ∷ [] in
      (
        get-update "exchange" p.publish_kwargs own (refl, (refl, tt)),
        get-update "routing_key" p.publish_kwargs own (refl, (refl, tt)),
      )

  -- Whatever publisher a dispatcher has, and whatever it is given besides: an event that a service
  -- dispatches goes to the exchange of a handler's queue, under the key that the queue is bound with,
  -- just when the handler is for events of that service and that type.
  pub dispatch-GoesTo :
      (producer : Sent Entity H Argument B → Option Trouble) (p : Publisher Entity H Argument)
      (service_name : String) (headers : Dict String H) (event_type : String) (event_data : B)
      (shared : Dict String Setting) (fresh : String) (h : EventHandler) (q : Queue)
      → Events.setup fresh h ≡ returned q
      → GoesTo q (dispatch producer p service_name headers event_type event_data shared).1
        ↔ ((h.source_service ≡ service_name) × (h.event_type ≡ event_type))
  dispatch-GoesTo producer p service_name headers event_type event_data shared fresh h q e =
      let (to, by) = dispatch_lem producer p service_name headers event_type event_data shared in
      let (key, bound) = queue_bound fresh h q e in
      (
        λ goes.
            let same : event_exchange h.source_service ≡ event_exchange service_name =
              cc (to, goes.0, bound) in
            (
              append_cancel_right h.source_service service_name ".events" same,
              cc (by, goes.1, key),
            ),
        λ for_it. (
          to
              ∙ ap (λ n. some (to_exchange (some n)))
                  (ap (λ s. event_exchange s) (sym for_it.0) ∙ sym bound),
          by ∙ ap (λ n. some (str n)) (sym for_it.1 ∙ sym key),
        ),
      )
