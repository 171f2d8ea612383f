-- ===== src/Amqp/Publish.antt =====
-- `Publisher` of nameko/amqp/publish.py: from what was asked for at instantiation and at each call
-- to what is handed to kombu's producer.
pub mod History
pub mod Precedence
use nameko.Prelude.{
  ℕ, String, Bool, true, false, Option, none, some, List, [], ◌∷◌, ◌++◌, string_eq,
}
use nameko.Prelude.Dict.{Dict, get, put, update}
use nameko.Action.{Result, returned, raised}

-- A transport option.
pub data Setting : Type 0 where
  flag : Bool → Setting
  amount : ℕ → Setting

-- The attributes. Entities to declare are `E`, header values `H`, other arguments `A`; the retry
-- policy is a dict of numbers.
pub record Publisher (E H A : Type 0) : Type 0 where
  pub amqp_uri : String
  pub ssl : Bool
  pub use_confirms : Bool
  pub delivery_mode : ℕ
  pub mandatory : Bool
  pub priority : ℕ
  pub expiration : Option ℕ
  pub serializer : String
  pub compression : Option String
  pub retry : Bool
  pub retry_policy : Dict String ℕ
  pub declare : List E
  -- what is left of the keyword arguments: the headers, and the others
  pub headers : Option (Dict String H)
  pub publish_kwargs : Dict String A

-- The keyword arguments of `__init__` that may be None, and those of `publish` that may be missing.
pub record Options (E H A : Type 0) : Type 0 where
  pub use_confirms : Option Bool
  pub delivery_mode : Option ℕ
  pub mandatory : Option Bool
  pub priority : Option ℕ
  pub expiration : Option (Option ℕ)
  pub serializer : Option String
  pub compression : Option (Option String)
  pub retry : Option Bool
  pub retry_policy : Option (Dict String ℕ)
  pub declare : Option (List E)
  pub headers : Option (Dict String H)
  pub others : Dict String A

-- The arguments that only `publish` takes.
pub record Extras (H : Type 0) : Type 0 where
  pub extra_headers : Option (Dict String H)
  pub transport_options : Option (Dict String Setting)

-- What the producer is given, and the connection that it is taken for.
pub record Sent (E H A B : Type 0) : Type 0 where
  pub payload : B
  pub headers : Dict String H
  pub delivery_mode : ℕ
  pub mandatory : Bool
  pub priority : ℕ
  pub expiration : Option ℕ
  pub compression : Option String
  pub declare : List E
  pub retry : Bool
  pub retry_policy : Dict String ℕ
  pub serializer : String
  pub publish_kwargs : Dict String A
  pub connection : String × Bool
  pub transport : Dict String Setting

-- What `producer.publish` may raise: ChannelError, with or without NO_ROUTE in its text, or another
-- exception; and what `publish` makes of it.
pub data Trouble : Type 0 where
  channel_error : Bool → String → Trouble
  other_error : String → Trouble

pub data Failure : Type 0 where
  undeliverable_message : Failure
  passed_on : Trouble → Failure

abbrev pub given {ℓ} : {A : Type ℓ} → Option A → A → A
given none a = a
given (some b) a = b

abbrev pub persistent : ℕ
persistent = 2

abbrev pub empty_if_none : {K : Type 0} → Option (Dict String K) → Dict String K
empty_if_none o = given o []

-- `if x is not None: self.x = x`, where the attribute may be None as well
abbrev pub set_if_some {ℓ} : {A : Type ℓ} → Option (Option A) → Option A → Option A
set_if_some (some (some a)) base = some a
set_if_some _ base = base

-- The class attribute after a call: it is written to unless the call brings its own options.
abbrev pub shared_after :
    {H : Type 0} → Extras H → Dict String Setting → Dict String Setting → Dict String Setting
shared_after x shared written = elim x.transport_options [ none ↦ written | some _ ↦ shared ]

abbrev translate : Option Trouble → Result Failure Unit
translate none = returned tt
translate (some (channel_error true text)) = raised undeliverable_message
translate (some (channel_error false text)) = raised (passed_on (channel_error false text))
translate (some (other_error text)) = raised (passed_on (other_error text))

module _ {E H A : Type 0} where
  -- The class attributes.
  abbrev pub class_defaults : String → Bool → Publisher E H A
  class_defaults amqp_uri ssl = record {
    amqp_uri = amqp_uri;
    ssl = ssl;
    use_confirms = true;
    delivery_mode = persistent;
    mandatory = false;
    priority = 0;
    expiration = none;
    serializer = "json";
    compression = none;
    retry = true;
    retry_policy = ("max_retries", 3) ∷ [];
    declare = [];
    headers = none;
    publish_kwargs = [];
  }

  -- `__init__` of a class with these attributes
  unfoldable pub new_publisher : Publisher E H A → Options E H A → Publisher E H A
  new_publisher base o = record {
    amqp_uri = base.amqp_uri;
    ssl = base.ssl;
    use_confirms = given o.use_confirms base.use_confirms;
    delivery_mode = given o.delivery_mode base.delivery_mode;
    mandatory = given o.mandatory base.mandatory;
    priority = given o.priority base.priority;
    expiration = set_if_some o.expiration base.expiration;
    serializer = given o.serializer base.serializer;
    compression = set_if_some o.compression base.compression;
    retry = given o.retry base.retry;
    retry_policy = given o.retry_policy base.retry_policy;
    declare = given o.declare base.declare;
    headers = o.headers;
    publish_kwargs = o.others;
  }

  unfoldable pub merged_headers : Publisher E H A → Options E H A → Extras H → Dict String H
  merged_headers p o x =
      update (update (empty_if_none p.headers) (empty_if_none o.headers))
        (empty_if_none x.extra_headers)

  -- The arguments of the producer. `shared` is the class attribute `transport_options`.
  unfoldable pub prepare :
      {B : Type 0}
      → Publisher E H A
      → B
      → Options E H A
      → Extras H
      → Dict String Setting
      → Sent E H A B
  unfolding merged_headers
  prepare p payload o x shared = record {
    payload = payload;
    headers = merged_headers p o x;
    delivery_mode = given o.delivery_mode p.delivery_mode;
    mandatory = given o.mandatory p.mandatory;
    priority = given o.priority p.priority;
    expiration = given o.expiration p.expiration;
    compression = given o.compression p.compression;
    declare = p.declare ++ given o.declare [];
    retry = given o.retry p.retry;
    retry_policy = given o.retry_policy p.retry_policy;
    serializer = given o.serializer p.serializer;
    publish_kwargs = update p.publish_kwargs o.others;
    connection = (p.amqp_uri, p.ssl);
    transport =
        put "confirm_publish" (flag (given o.use_confirms p.use_confirms))
          (given x.transport_options shared);
  }

  -- `publish`: its outcome, what the producer was given, and the class attribute afterwards.
  unfoldable pub publish :
      {B : Type 0}
      → (Sent E H A B → Option Trouble)
      → Publisher E H A
      → B
      → Options E H A
      → Extras H
      → Dict String Setting
      → Result Failure Unit × Sent E H A B × Dict String Setting
  unfolding prepare
  publish producer p payload o x shared =
      let sent = prepare p payload o x shared in
      (translate (producer sent), sent, shared_after x shared sent.transport)
