-- ===== src/Amqp/Publish/Precedence.antt =====
-- The places that set an option of a message (nameko/amqp/publish.py), in order.
use nameko.Prelude.{
  String, ◌≡◌, Option, none, some, [], ◌++◌, string_eq, refl, arith, ◌==◌, if◌then◌else◌,
}
use nameko.Prelude.Dict.{Dict, get, update, get-update, get-put, IsDict, or_else}
use nameko.Amqp.Publish.{
  Setting, flag, Publisher, Options, Extras, Sent, given, set_if_some, new_publisher, empty_if_none,
  merged_headers, prepare,
}

-- The value that is asked for last: at the call, at instantiation, or on the class.
abbrev pub last_word {ℓ} : {A : Type ℓ} → Option A → Option A → A → A
last_word (some a) o base = a
last_word none (some b) base = b
last_word none none base = base

-- None at instantiation asks for nothing.
abbrev pub asked {ℓ} : {A : Type ℓ} → Option (Option A) → Option (Option A)
asked (some (some a)) = some (some a)
asked (some none) = none
asked none = none

given-set_if_some :
    {C : Type 0} (last : Option (Option C)) (first : Option (Option C)) (base : Option C)
    → given last (set_if_some first base) ≡ last_word last (asked first) base
given-set_if_some last first base = ground arith

given-given :
    {C : Type 0} (last first : Option C) (base : C)
    → given last (given first base) ≡ last_word last first base
given-given last first base = ground arith

module _ {E H A B : Type 0} (base : Publisher E H A) (made called : Options E H A) (x : Extras H)
    (payload : B) (shared : Dict String Setting) where
  abbrev pub message : Sent E H A B
  message = prepare (new_publisher base made) payload called x shared

  pub record FollowsPrecedence : Type 0 where
    pub delivery_mode :
        message.delivery_mode ≡ last_word called.delivery_mode made.delivery_mode base.delivery_mode
    pub mandatory : message.mandatory ≡ last_word called.mandatory made.mandatory base.mandatory
    pub priority : message.priority ≡ last_word called.priority made.priority base.priority
    pub expiration :
        message.expiration ≡ last_word called.expiration (asked made.expiration) base.expiration
    pub compression :
        message.compression ≡ last_word called.compression (asked made.compression) base.compression
    pub content : message.payload ≡ payload
    pub connected : message.connection ≡ (base.amqp_uri, base.ssl)
    pub serializer :
        message.serializer ≡ last_word called.serializer made.serializer base.serializer
    pub retry : message.retry ≡ last_word called.retry made.retry base.retry
    pub retry_policy :
        message.retry_policy ≡ last_word called.retry_policy made.retry_policy base.retry_policy
    pub declared :
        message.declare ≡ last_word made.declare none base.declare ++ given called.declare []
    pub header :
        (k : String)
        → get k message.headers
          ≡ or_else
              (get k (empty_if_none x.extra_headers))
              (or_else (get k (empty_if_none called.headers)) (get k (empty_if_none made.headers)))
    pub argument :
        (k : String)
        → get k message.publish_kwargs ≡ or_else (get k called.others) (get k made.others)
    pub option :
        (k : String)
        → get k message.transport ≡ (
            if "confirm_publish" == k
            then some (flag (last_word called.use_confirms made.use_confirms base.use_confirms))
            else get k (given x.transport_options shared))

  -- The arguments are dicts, so no key occurs twice.
  pub record AreDicts : Type 0 where
    pub called_others : IsDict called.others
    pub called_headers : IsDict (empty_if_none called.headers)
    pub extra_headers : IsDict (empty_if_none x.extra_headers)

  -- Let the keyword arguments be dicts. Each option of a message is the one given to `publish`, else
  -- the one given at instantiation, else the class attribute; an expiration or a compression of None
  -- counts at the call, but not at instantiation. The payload and the connection are passed on. Headers are looked up in the extra
  -- headers first, then in those of the call, then in those of the publisher; other arguments in those
  -- of the call, then in those of the publisher. What is declared at the call comes after what the
  -- publisher declares. The connection's options are those of the call, or of the class, with the
  -- confirms that are asked for.
  pub publish-FollowsPrecedence : AreDicts → FollowsPrecedence
  unfolding prepare new_publisher merged_headers
  publish-FollowsPrecedence d = record {
    delivery_mode = given-given called.delivery_mode made.delivery_mode base.delivery_mode;
    mandatory = given-given called.mandatory made.mandatory base.mandatory;
    priority = given-given called.priority made.priority base.priority;
    expiration = given-set_if_some called.expiration made.expiration base.expiration;
    compression = given-set_if_some called.compression made.compression base.compression;
    content = refl;
    connected = refl;
    serializer = given-given called.serializer made.serializer base.serializer;
    retry = given-given called.retry made.retry base.retry;
    retry_policy = given-given called.retry_policy made.retry_policy base.retry_policy;
    declared = ground arith;
    header = λ k.
        rw
          (
            get-update k (update (empty_if_none made.headers) (empty_if_none called.headers))
                (empty_if_none x.extra_headers) d.extra_headers,
            get-update k (empty_if_none made.headers) (empty_if_none called.headers)
                d.called_headers,
          )
          refl;
    argument = λ k. get-update k made.others called.others d.called_others;
    option =
        λ k. rw (get-put, given-given called.use_confirms made.use_confirms base.use_confirms) refl;
  }
