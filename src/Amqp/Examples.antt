-- ===== src/Amqp/Examples.antt =====
-- The theorems about nameko/amqp/publish.py at concrete publishers.
use nameko.Prelude.{String, ◌≡◌, true, false, Option, none, some, [], ◌∷◌, string_eq, refl}
use nameko.Prelude.Dict.{get}
use nameko.Amqp.Publish.{amount, Publisher, Options, Extras, Sent, Trouble, class_defaults}
use nameko.Amqp.Publish.Precedence.{FollowsPrecedence, publish-FollowsPrecedence}
use nameko.Amqp.Publish.History.{Call, made, shared_by, publish-alone}

abbrev nothing_given : Options String String String
nothing_given = record {
  use_confirms = none;
  delivery_mode = none;
  mandatory = none;
  priority = none;
  expiration = none;
  serializer = none;
  compression = none;
  retry = none;
  retry_policy = none;
  declare = none;
  headers = none;
  others = [];
}

abbrev at_call : Options String String String
at_call = record nothing_given {
  mandatory = some true;
  headers = some (("x-lang", "fr") ∷ []);
  others = ("exchange", "news") ∷ [];
}

abbrev extras : Extras String
extras = record { extra_headers = some (("x-lang", "en") ∷ []); transport_options = none }

abbrev defaults : Publisher String String String
defaults = class_defaults "amqp://" false

publish-FollowsPrecedence_example :
    FollowsPrecedence {B = String} defaults nothing_given at_call extras "payload"
      (("max_retries", amount 3) ∷ [])
unfolding get
publish-FollowsPrecedence_example =
    publish-FollowsPrecedence defaults nothing_given at_call extras "payload"
      (("max_retries", amount 3) ∷ [])
      (record {
        called_others = (refl, tt);
        called_headers = (refl, tt);
        extra_headers = (refl, tt);
      })

abbrev producer : Sent String String String String → Option Trouble
producer sent = none

abbrev call : Call String String String String
call = record { publisher = defaults; payload = "payload"; options = at_call; extras = extras }

abbrev unconfirmed : Call String String String String
unconfirmed = record call { options = record at_call { use_confirms = some false } }

publish-alone_example :
    get "confirm_publish"
      (made producer call (shared_by producer (unconfirmed ∷ []) [])).1.transport
    ≡ get "confirm_publish" (made producer call []).1.transport
publish-alone_example = publish-alone producer (unconfirmed ∷ []) call [] "confirm_publish"
