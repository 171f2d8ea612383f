-- ===== src/Standalone.antt =====
-- `PollingQueueConsumer` and `ConsumeEvent` of nameko/standalone/rpc.py: a client that polls for its
-- reply.
mod Examples
pub mod Polling
use nameko.Prelude.{
  String, Bool, true, false, Option, none, some, List, [], ◌∷◌, string_eq, if◌then◌else◌,
}
use nameko.Prelude.Dict.{Dict, get, put, remove}
use nameko.Prelude.Set.{contains, discard}
use nameko.Action.{Result, returned, raised}

-- What an event or a call fails with: RpcTimeout, KeyboardInterrupt, the RuntimeErrors of a consumer
-- that is stopped or disconnected, the KeyError of an event that is gone, or the error of a broker
-- that cannot be reached again.
pub data Failure : Type 0 where
  rpc_timeout interrupted stopped_error disconnected_error no_event unreachable : Failure

-- What `drain_events` comes to: a message under a correlation id, a timeout, a lost connection, after
-- which the broker can be reached again or not, or an interrupt.
pub data Drained (B : Type 0) : Type 0 where
  got : String → B → Drained B
  timed_out cut_off lost break_in : Drained B

-- The consumer with the events of its provider: `replies` that have arrived, the ids whose event is in
-- the provider's dict, and what events were sent.
pub record Poller (B : Type 0) : Type 0 where
  pub stopped : Bool
  pub connected : Bool
  pub replies : Dict String B
  pub reply_events : List String
  pub sent : Dict String B
  pub failed : Dict String Failure

module _ {B : Type 0} where
  -- `event = self.provider._reply_events.pop(correlation_id)` / `event.send_exception(exc)`
  unfoldable pub fail : String → Failure → Poller B → Result Failure (Poller B)
  fail id exc p =
      if contains id p.reply_events
      then returned
          (record p { reply_events = discard id p.reply_events; failed = put id exc p.failed })
      else raised no_event

  -- `self.replies.pop(correlation_id)` / `self.provider.handle_message(body, message)`
  unfoldable pub take : String → B → Poller B → Poller B
  take id body p =
      let popped = record p { replies = remove id p.replies } in
      if contains id p.reply_events
      then record popped { reply_events = discard id p.reply_events; sent = put id body p.sent }
      else popped

  -- `on_message`
  unfoldable pub on_message : String → B → Poller B → Poller B
  on_message id body p = record p { replies = put id body p.replies }

  -- `get_message`, over what `drain_events` comes to, which is given; `none` while it waits for more.
  unfoldable pub get_message :
      String → List (Drained B) → Poller B → Option (Result Failure (Poller B) × List (Drained B))
  unfolding fail take on_message
  get_message id [] p = elim (get id p.replies) [
    | some body ↦ some (returned (take id body p), [])
    | none ↦ none
  ]
  get_message id (d ∷ rest) p = elim (get id p.replies) [
    | some body ↦ some (returned (take id body p), d ∷ rest)
    | none ↦ elim d [
      | got key body ↦ get_message id rest (on_message key body p)
      | timed_out ↦ some (fail id rpc_timeout p, rest)
      | cut_off ↦ get_message id rest p
      | lost ↦ some (raised unreachable, rest)
      | break_in ↦ some (fail id interrupted p, rest)
    ]
  ]

  -- The end of `wait`: an exception that was sent is raised.
  abbrev outcome : String → Poller B → Option (Result Failure B)
  outcome id p = elim (get id p.failed) [
    | some exc ↦ some (raised exc)
    | none ↦ elim (get id p.sent) [ none ↦ none | some body ↦ some (returned body) ]
  ]

  abbrev read :
      String → Option (Result Failure (Poller B) × List (Drained B)) → Option (Result Failure B)
  read id none = none
  read id (some (raised exc, rest)) = some (raised exc)
  read id (some (returned p, rest)) = outcome id p

  -- `ConsumeEvent.wait`
  unfoldable pub wait : String → List (Drained B) → Poller B → Option (Result Failure B)
  unfolding get_message
  wait id drained p = elim (get id p.failed) [
    | some exc ↦ some (raised exc)
    | none ↦
        let polled = read id (get_message id drained p) in
        if p.stopped
        then some (raised stopped_error)
        else if p.connected
        then polled
        else some (raised disconnected_error)
  ]
