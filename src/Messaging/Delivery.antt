-- ===== src/Messaging/Delivery.antt =====
-- Messages, and what the handlers of nameko/messaging.py and nameko/rpc.py do with them.
pub mod Counts
use nameko.Prelude.{ℕ, String, Option}
use nameko.Prelude.Dict.{Dict}
use nameko.Containers.Context.{Datum}
use nameko.Action
use nameko.Action.{pure, emit}
use nameko.Exceptions.Registry.{Exc, Serialized}

-- The connection of a message's channel: up, gone (`channel.connection` is None), or breaking, so
-- that `ack` and `requeue` raise ConnectionError.
pub data Link : Type 0 where
  up breaking gone : Link

-- A delivered message, with the properties that its sender may have left out.
pub record Message (V : Type 0) : Type 0 where
  pub tag : ℕ
  pub routing_key : String
  pub headers : Dict String (Datum V)
  pub content_type : Option String
  pub reply_to : Option String
  pub correlation_id : Option String
  pub link : Link

-- A reply as it is handed to the publisher: the payload and where it goes.
pub record Reply (R : Type 0) : Type 0 where
  pub result : Option R
  pub error : Option Serialized
  pub serializer : String
  pub routing_key : String
  pub correlation_id : Option String

pub data Effect (R : Type 0) : Type 0 where
  acked : ℕ → Effect R
  requeued : ℕ → Effect R
  replied : Reply R → Effect R

abbrev pub Act : Type 0 → Type 0 → Type 0
Act R A = Action.Act Exc (Effect R) A

module _ {R : Type 0} where
  abbrev on_link : Link → Effect R → Act R Unit
  on_link up effect = emit effect
  on_link breaking effect = pure tt
  on_link gone effect = pure tt

  -- `QueueConsumer.ack_message`
  unfoldable pub ack_message : {V : Type 0} → Message V → Act R Unit
  ack_message message = on_link message.link (acked message.tag)

  -- `QueueConsumer.requeue_message`
  unfoldable pub requeue_message : {V : Type 0} → Message V → Act R Unit
  requeue_message message = on_link message.link (requeued message.tag)
