-- ===== src/Rpc/Server/Replying.antt =====
-- What `handle_result` of nameko/rpc.py sends for the outcome of a call, and when it raises.
use nameko.Prelude.{String, ◌≡◌, refl, false, Option, none, some, List, [], ◌∷◌, ◌++◌, arith}
use mathlib.Core.List.{append_assoc}
use nameko.Exceptions.{nil, stringify, safe_values, Outcome, ok, unhashable, ◌>>=◌ as ◌then◌}
use nameko.Exceptions.Registry.{Exc, Serialized, serialize, get_module_path}
use nameko.Exceptions.Safe.{plain_values, JsonValues, safe_values-Settles, unhashable_of_Settles}
use nameko.Messaging.Delivery.{Message, up, Reply, Effect, acked, replied, ack_message}
use nameko.Action.{returned, raised}
use nameko.Rpc.Server.{
  Server, send_response, handle_result, unhashable_error, unserializable_value_error,
}

-- The error part of a reply.
abbrev pub written : Option Exc → Outcome (Option Serialized)
written none = ok none
written (some exc) = ◌then◌ (serialize exc) (λ entry. ok (some entry))

abbrev pub unserializable_entry : Option String → Serialized
unserializable_entry repr = record {
  exc_type = some "UnserializableValueError";
  exc_path = some (get_module_path (unserializable_value_error repr).type);
  exc_args = some nil;
  value = some (stringify (unserializable_value_error repr).as_text);
}

serialize-unserializable :
    (repr : Option String)
    → serialize (unserializable_value_error repr) ≡ ok (unserializable_entry repr)
unfolding serialize safe_values
serialize-unserializable none = refl
serialize-unserializable (some r) = refl

-- A request that can be answered: it says where to and how, over a channel that is up.
pub record IsAnswerable {V R : Type 0} (server : Server V R) (message : Message V) : Type 0 where
  pub content_type : String
  pub serializer : String
  pub reply_to : String
  pub typed : message.content_type ≡ some content_type
  pub known : server.type_to_name content_type ≡ some serializer
  pub addressed : message.reply_to ≡ some reply_to
  pub connected : message.link ≡ up

module _ {V R : Type 0} (server : Server V R) (message : Message V)
    (a : IsAnswerable server message) where
  -- The result and error of the payload; `failed` is what `dumps` raises on the result.
  abbrev pub payload : Option R → Option Serialized → Option Exc → Option R × Option Serialized
  payload result error none = (result, error)
  payload result error (some failed) = (none, some (unserializable_entry (server.repr result)))

  abbrev pub outcome : Option R → Option Exc → Option Exc → Option R × Option Exc
  outcome result exc none = (result, exc)
  outcome result exc (some failed) = (none, some failed)

  abbrev pub answer : Option R → Option Serialized → Reply R
  answer result error =
      let sent = payload result error (server.dumps a.serializer result) in
      record {
        result = sent.0;
        error = sent.1;
        serializer = a.serializer;
        routing_key = a.reply_to;
        correlation_id = message.correlation_id;
      }

  -- Let a request be answerable, the outcome's exception be serializable, and the publisher not fail
  -- on the answer. Whatever the call returned or raised, the answer goes to the queue and under the
  -- correlation id that the request names, before the request is acknowledged. A result that cannot
  -- be serialized is replaced by None and an error that says so, and the container is told of that
  -- failure.
  pub handle_result_answers :
      (result : Option R) (exc : Option Exc) (error : Option Serialized) (log : List (Effect R))
      → written exc ≡ ok error
      → server.publish (answer result error) ≡ none
      → handle_result server message result exc log ≡ (
        returned (outcome result exc (server.dumps a.serializer result)),
        log ++ replied (answer result error) ∷ acked message.tag ∷ [],
      )
  unfolding handle_result send_response ack_message
  handle_result_answers result exc error log w p = ground (
    arith,
    a.typed,
    a.known,
    a.addressed,
    a.connected,
    serialize-unserializable (server.repr result),
    append_assoc log (replied (answer result error) ∷ []) (acked message.tag ∷ []),
  )

serialize-unhashable : (exc : Exc) → plain_values exc.args ≡ false → serialize exc ≡ unhashable
unfolding serialize
serialize-unhashable exc h =
    let settled = rw h at (safe_values-Settles exc.args) in
    ground (arith, unhashable_of_Settles JsonValues (safe_values exc.args) settled)

-- An exception whose arguments hold a dict with a key that is iterated over makes the handler of
-- the result raise: the caller gets no reply, and the request is not acknowledged.
pub handle_result_unanswered :
    {V R : Type 0} (server : Server V R) (message : Message V) (result : Option R) (exc : Exc)
    (log : List (Effect R))
    → plain_values exc.args ≡ false
    → handle_result server message result (some exc) log ≡ (raised unhashable_error, log)
unfolding handle_result send_response
handle_result_unanswered server message result exc log h =
    ground (arith, serialize-unhashable exc h)
