-- ===== src/Messaging/Consuming.antt =====
-- `QueueConsumer` of nameko/messaging.py over `ProviderCollector` of nameko/extensions.py: the
-- registration of providers, and how the consumer comes to its end.
pub mod Ending
pub mod Invariant
pub mod Preserved
pub mod Shapes
use nameko.Prelude.{
  ℕ, ℕ_eq, String, Bool, true, false, not, List, [], ◌∷◌, ◌++◌, ◌≡◌, if◌then◌else◌,
}
use nameko.Prelude.Set.{contains, add, discard}
use nameko.Action.{Result, returned, raised}

-- Providers are numbers. `released` holds those whose `unregister_provider` still waits although
-- the event that it waits on was sent; `set_up` tells that `get_consumers` was called.
pub record QueueConsumer : Type 0 where
  pub providers : List ℕ
  pub providers_registered : Bool
  pub last_provider_unregistered : Bool
  pub consumers : List ℕ
  pub pending_remove_providers : List ℕ
  pub released : List ℕ
  pub set_up : Bool
  pub consumers_ready : Bool
  pub should_stop : Bool

-- The AssertionError of an event that is sent twice, and the KeyError of a consumer that is missing.
pub data Broken : Type 0 where
  sent_again : Broken
  no_consumer : ℕ → Broken

abbrev pub new_queue_consumer : QueueConsumer
new_queue_consumer = record {
  providers = [];
  providers_registered = false;
  last_provider_unregistered = false;
  consumers = [];
  pending_remove_providers = [];
  released = [];
  set_up = false;
  consumers_ready = false;
  should_stop = false;
}

-- `ProviderCollector.register_provider`
unfoldable pub register_provider : ℕ → QueueConsumer → QueueConsumer
register_provider p q = record q { providers_registered = true; providers = add p q.providers }

-- `self._last_provider_unregistered.send()`; an event that was sent raises.
abbrev pub send_last : QueueConsumer → Result Broken QueueConsumer
send_last q =
    if q.last_provider_unregistered
    then raised sent_again
    else returned (record q { last_provider_unregistered = true })

abbrev is_empty : List ℕ → Bool
is_empty [] = true
is_empty (_ ∷ _) = false

abbrev after_removal : QueueConsumer → Result Broken QueueConsumer
after_removal q = if is_empty q.providers then send_last q else returned q

-- `ProviderCollector.unregister_provider`
unfoldable pub remove_provider : ℕ → QueueConsumer → Result Broken QueueConsumer
remove_provider p q =
    if contains p q.providers
    then after_removal (record q { providers = discard p q.providers })
    else returned q

-- `QueueConsumer.unregister_provider`, up to its wait; before the consumer is ready it does not wait.
unfoldable pub unregister_provider : ℕ → QueueConsumer → Result Broken QueueConsumer
unregister_provider p q =
    if q.consumers_ready
    then returned (record q { pending_remove_providers = add p q.pending_remove_providers })
    else send_last q

-- The rest of `unregister_provider`, once the event was sent.
unfoldable pub resume_unregister : ℕ → QueueConsumer → Result Broken QueueConsumer
unfolding remove_provider
resume_unregister p q = remove_provider p (record q { released = discard p q.released })

-- The loop of `_cancel_consumers_if_requested` on the consumers, where cancelling raises nothing.
unfoldable pub cancel_each : List ℕ → List ℕ → Result Broken (List ℕ)
cancel_each [] consumers = returned consumers
cancel_each (p ∷ rest) consumers =
    let later = cancel_each rest (discard p consumers) in
    if contains p consumers then later else raised (no_consumer p)

abbrev add_all : List ℕ → List ℕ → List ℕ
add_all [] s = s
add_all (p ∷ rest) s = add p (add_all rest s)

abbrev iterated : QueueConsumer → Result Broken (List ℕ) → Result Broken QueueConsumer
iterated q (raised e) = raised e
iterated q (returned consumers) = returned (record q {
  consumers = consumers;
  pending_remove_providers = [];
  released = add_all q.pending_remove_providers q.released;
  should_stop = if is_empty consumers then true else q.should_stop;
})

-- `on_iteration`
unfoldable pub on_iteration : QueueConsumer → Result Broken QueueConsumer
unfolding cancel_each
on_iteration q = iterated q (cancel_each q.pending_remove_providers q.consumers)

-- `get_consumers`: after a connection is made, each provider gets a consumer.
unfoldable pub get_consumers : QueueConsumer → QueueConsumer
get_consumers q = record q { consumers = add_all q.providers q.consumers; set_up = true }

-- `on_consume_ready`
unfoldable pub on_consume_ready : QueueConsumer → QueueConsumer
on_consume_ready q = record q { consumers_ready = true }

-- `kill`, up to its wait
unfoldable pub kill : QueueConsumer → QueueConsumer
kill q = record q { providers = []; pending_remove_providers = []; should_stop = true }

-- What happens to a consumer. Providers register before it starts; each asks once to be
-- unregistered; and a connection takes a wait, after which no caller is left that was released.
pub data Step (q : QueueConsumer) : QueueConsumer → Type 0 where
  registers : (p : ℕ) → q.set_up ≡ false → q.should_stop ≡ false → Step q (register_provider p q)
  connects : q.released ≡ [] → Step q (get_consumers q)
  gets_ready : q.set_up ≡ true → Step q (on_consume_ready q)
  unregisters :
      (p : ℕ) (t : QueueConsumer)
      → contains p q.providers ≡ true
      → contains p q.released ≡ false
      → unregister_provider p q ≡ returned t
      → Step q t
  iterates : (t : QueueConsumer) → q.set_up ≡ true → on_iteration q ≡ returned t → Step q t
  wakes :
      (p : ℕ) (t : QueueConsumer)
      → contains p q.released ≡ true
      → resume_unregister p q ≡ returned t
      → Step q t
  kills : Step q (kill q)

pub data Reach (q : QueueConsumer) : QueueConsumer → Type 0 where
  here : Reach q q
  next : {t u : QueueConsumer} → Reach q t → Step t u → Reach q u
