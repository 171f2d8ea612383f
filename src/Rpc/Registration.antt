-- ===== src/Rpc/Registration.antt =====
-- The registration of rpc methods with their consumer: `RpcConsumer` of nameko/rpc.py over
-- `ProviderCollector` of nameko/extensions.py, as a step relation cut where calls wait.
pub mod Invariant
pub mod Safety
use nameko.Prelude.{ℕ, ℕ_eq, suc, Bool, true, false, List, [], ◌∷◌, ◌≡◌, if◌then◌else◌}
use nameko.Prelude.Set.{contains, add, discard}
use nameko.Action.{Result, returned, raised}

-- The attributes, with providers by number; the calls of `unregister_provider` that wait for the
-- queue consumer and those that wait for the event; and how often the queue consumer was asked.
pub record RpcConsumer : Type 0 where
  pub set_up : Bool
  pub providers : List ℕ
  pub providers_registered : Bool
  pub last_provider_unregistered : Bool
  pub unregistering_providers : List ℕ
  pub unregistered_from_queue_consumer : Bool
  pub leaving : List ℕ
  pub waiting : List ℕ
  pub asked : ℕ

-- The AssertionError of an event that is sent twice
pub data SentTwice : Type 0 where
  sent_twice : SentTwice

abbrev pub new_rpc_consumer : RpcConsumer
new_rpc_consumer = record {
  set_up = false;
  providers = [];
  providers_registered = false;
  last_provider_unregistered = false;
  unregistering_providers = [];
  unregistered_from_queue_consumer = false;
  leaving = [];
  waiting = [];
  asked = 0;
}

-- `setup`: the queue is made, and the consumer registers with the queue consumer, once.
unfoldable pub setup : RpcConsumer → RpcConsumer
setup r = record r { set_up = true }

unfoldable pub register_provider : ℕ → RpcConsumer → RpcConsumer
register_provider p r = record r { providers_registered = true; providers = add p r.providers }

-- `self._providers - self._unregistering_providers`
unfoldable pub minus : List ℕ → List ℕ → List ℕ
minus [] gone = []
minus (p ∷ rest) gone = let left = minus rest gone in if contains p gone then left else p ∷ left

abbrev pub is_empty : List ℕ → Bool
is_empty [] = true
is_empty (_ ∷ _) = false

-- `unregister_provider`, up to its first wait
unfoldable pub unregister_provider : ℕ → RpcConsumer → RpcConsumer
unfolding minus
unregister_provider p r =
    let gone = add p r.unregistering_providers in
    let marked = record r { unregistering_providers = gone } in
    if is_empty (minus r.providers gone)
    then record marked { leaving = add p r.leaving; asked = suc r.asked }
    else record marked { waiting = add p r.waiting }

-- `self._unregistered_from_queue_consumer.send(True)`, once the queue consumer has let go; the call
-- then finds the event sent.
unfoldable pub leave_queue_consumer : ℕ → RpcConsumer → Result SentTwice RpcConsumer
leave_queue_consumer p r =
    if r.unregistered_from_queue_consumer
    then raised sent_twice
    else returned (record r {
      unregistered_from_queue_consumer = true;
      leaving = discard p r.leaving;
      waiting = add p r.waiting;
    })

-- `self._last_provider_unregistered.send()`
abbrev send_last : RpcConsumer → Result SentTwice RpcConsumer
send_last r =
    if r.last_provider_unregistered
    then raised sent_twice
    else returned (record r { last_provider_unregistered = true })

abbrev after_removal : RpcConsumer → Result SentTwice RpcConsumer
after_removal r = if is_empty r.providers then send_last r else returned r

-- The rest of `unregister_provider`, which is that of ProviderCollector, once the event was sent.
unfoldable pub remove_provider : ℕ → RpcConsumer → Result SentTwice RpcConsumer
remove_provider p r =
    let woken = record r { waiting = discard p r.waiting } in
    if contains p r.providers
    then after_removal (record woken { providers = discard p r.providers })
    else returned woken

-- `stop`, to its end: without providers it leaves the queue consumer by itself.
unfoldable pub stop : RpcConsumer → Result SentTwice RpcConsumer
stop r =
    if r.providers_registered
    then returned r
    else if r.unregistered_from_queue_consumer
    then raised sent_twice
    else returned (record r { unregistered_from_queue_consumer = true; asked = suc r.asked })

-- Providers register before any is unregistered or the consumer is stopped; each is unregistered
-- once, and the consumer is stopped once.
pub data Step (r : RpcConsumer) : RpcConsumer → Type 0 where
  sets_up : Step r (setup r)
  registers :
      (p : ℕ)
      → r.unregistering_providers ≡ []
      → r.unregistered_from_queue_consumer ≡ false
      → Step r (register_provider p r)
  stops :
      (t : RpcConsumer)
      → r.unregistering_providers ≡ []
      → r.unregistered_from_queue_consumer ≡ false
      → stop r ≡ returned t
      → Step r t
  unregisters :
      (p : ℕ)
      → contains p r.providers ≡ true
      → contains p r.unregistering_providers ≡ false
      → Step r (unregister_provider p r)
  leaves :
      (p : ℕ) (t : RpcConsumer)
      → contains p r.leaving ≡ true
      → leave_queue_consumer p r ≡ returned t
      → Step r t
  wakes :
      (p : ℕ) (t : RpcConsumer)
      → contains p r.waiting ≡ true
      → r.unregistered_from_queue_consumer ≡ true
      → remove_provider p r ≡ returned t
      → Step r t

pub data Reach (r : RpcConsumer) : RpcConsumer → Type 0 where
  here : Reach r r
  next : {t u : RpcConsumer} → Reach r t → Step t u → Reach r u
