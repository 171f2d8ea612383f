-- ===== src/Messaging/Consumers.antt =====
-- `Consumer` of nameko/messaging.py: what becomes of a message that a method consumes.
use nameko.Prelude.{
  String, ◌≡◌, Bool, true, false, ◌&&◌, ◌||◌, Option, none, some, List, [], ◌∷◌, ◌++◌, arith,
  if◌then◌else◌,
}
use nameko.Prelude.Dict.{Dict}
use nameko.Containers.Context.{Datum}
use nameko.Exceptions.Registry.{Exc}
use nameko.Messaging.Headers.{unpack_message_headers}
use nameko.Messaging.Delivery.{
  Message, up, Effect, acked, requeued, Act, ack_message, requeue_message,
}
use nameko.Action.{returned, pure, ◌>>=◌, ◌>>◌}

-- What `spawn_worker` is called with.
pub record Job (B V : Type 0) : Type 0 where
  pub body : B
  pub context_data : Dict String (Datum V)

abbrev is_error : Option Exc → Bool
is_error none = false
is_error (some _) = true

module _ {V R : Type 0} (requeue_on_error : Bool) where
  unfoldable pub handle_message_processed : Message V → Option R → Option Exc → Act R Unit
  handle_message_processed message result exc =
      if is_error exc && requeue_on_error then requeue_message message else ack_message message

  unfoldable pub handle_result : Message V → Option R → Option Exc → Act R (Option R × Option Exc)
  unfolding handle_message_processed
  handle_result message result exc = do
    handle_message_processed message result exc
    pure (result, exc)

module _ {B V R : Type 0} (requeue_on_error being_killed : Bool) where
  -- The worker that is spawned, or none if the container is being killed.
  unfoldable pub handle_message : B → Message V → Act R (Option (Job B V))
  handle_message body message =
      if being_killed
      then (do requeue_message message; pure none)
      else pure
          (some (record { body = body; context_data = unpack_message_headers message.headers }))

  abbrev finish : (Job B V → Option R × Option Exc) → Message V → Option (Job B V) → Act R Unit
  finish worker message none = pure tt
  finish worker message (some job) = do
    handle_result requeue_on_error message (worker job).0 (worker job).1
    pure tt

  -- A message through the consumer: the handler and, if it spawns a worker, that worker.
  unfoldable pub consume : (Job B V → Option R × Option Exc) → B → Message V → Act R Unit
  unfolding handle_message handle_result
  consume worker body message = do job ← handle_message body message; finish worker message job

  -- What the consumer promises to do with a message.
  abbrev pub goes_back : (Job B V → Option R × Option Exc) → B → Message V → Bool
  goes_back worker body message =
      being_killed
      || (is_error
            (worker
              (record { body = body; context_data = unpack_message_headers message.headers })).1
          && requeue_on_error)

  -- A message on a channel that is up is settled once and no exception escapes: it is requeued if the
  -- container is being killed, or if the method fails and `requeue_on_error` is set, and acknowledged
  -- if not.
  pub consume-settles :
      (worker : Job B V → Option R × Option Exc) (body : B) (message : Message V)
      (log : List (Effect R))
      → message.link ≡ up
      → consume worker body message log ≡ (
        returned tt,
        log
            ++ (if goes_back worker body message then requeued message.tag else acked message.tag)
              ∷ [],
      )
  unfolding consume handle_message handle_result handle_message_processed requeue_message
      ack_message
  consume-settles worker body message log connected = ground (arith, connected)
