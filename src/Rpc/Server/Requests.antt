-- ===== src/Rpc/Server/Requests.antt =====
-- What becomes of a request that arrives at a service (nameko/rpc.py): a refusal, a requeue, or a
-- worker.
use nameko.Prelude.{
  String, ◌≡◌, refl, true, false, Option, none, some, List, [], ◌∷◌, ◌++◌, arith, string_eq,
}
use mathlib.Core.Option
use nameko.Prelude.Dict.{Dict}
use nameko.Prelude.Set.{contains}
use nameko.Prelude.Text.{join_dot}
use nameko.Exceptions.Registry.{Exc, method_not_found, malformed_request, incorrect_signature}
use nameko.Messaging.Delivery.{Message, up, Effect, requeued, requeue_message}
use nameko.Action.{returned, pure, ◌>>◌}
use nameko.Messaging.Headers.{unpack_message_headers}
use nameko.Rpc.Server.{
  Body, Job, Server, both, bad_request, find_provider, last_part, get_provider_for_method,
  provider_handle_message, handle_message, handle_result,
}

module _ {V R : Type 0} (server : Server V R) where
  abbrev no_fit : Option (List V × Dict String V) → String → Option Exc
  no_fit none method_name =
      some (bad_request malformed_request "Message missing `args` or `kwargs`")
  no_fit (some call) method_name =
      Option.map (bad_request incorrect_signature) (server.getcallargs method_name call.0 call.1)

  -- Why a request is refused: no method for its routing key, no arguments, or the wrong ones.
  abbrev pub refusal : Body V → Message V → Option Exc
  refusal body message =
      elim (find_provider server.service_name message.routing_key server.providers) [
        | none ↦ some (bad_request method_not_found (last_part "" message.routing_key))
        | some method_name ↦ no_fit (both body.args body.kwargs) method_name
      ]

  pub handle_message_refused :
      (body : Body V) (message : Message V) (exc : Exc) (log : List (Effect R))
      → refusal body message ≡ some exc
      → handle_message server body message log
        ≡ (do handle_result server message none (some exc); pure none) log
  unfolding handle_message get_provider_for_method provider_handle_message
  handle_message_refused body message exc log e = ground arith

  -- The worker for a request that is not refused.
  abbrev pub IsJob : Body V → Message V → Job V → Type 0
  IsJob body message job =
      (join_dot server.service_name job.method_name ≡ message.routing_key)
      × (contains job.method_name server.providers ≡ true)
      × (body.args ≡ some job.args)
      × (body.kwargs ≡ some job.kwargs)
      × (server.getcallargs job.method_name job.args job.kwargs ≡ none)
      × (job.context_data ≡ unpack_message_headers message.headers)

  find_provider_sound :
      (key : String) (l : List String) (m : String)
      → find_provider server.service_name key l ≡ some m
      → (join_dot server.service_name m ≡ key) × (contains m l ≡ true)
  unfolding contains
  find_provider_sound key [] m e = cc
  find_provider_sound key (p ∷ l) m e = ground (
    arith,
    string_eq.equal_iff (join_dot server.service_name p) key,
    string_eq.equal_iff p m,
    find_provider_sound key l m,
  )

  refusal-none :
      (body : Body V) (message : Message V)
      → refusal body message ≡ none
      → (m : String) × (args : List V) × (kwargs : Dict String V) × (find_provider
            server.service_name message.routing_key server.providers
          ≡ some m)
        × (body.args ≡ some args)
        × (body.kwargs ≡ some kwargs)
        × (server.getcallargs m args kwargs ≡ none)
  refusal-none body message e = ground arith

  -- While the container is not being killed, a request that is not refused gets a worker and sends
  -- nothing: for the method that its routing key names, with the arguments of its body, which fit
  -- the signature, and the context data of its headers.
  pub handle_message_accepted :
      (body : Body V) (message : Message V) (log : List (Effect R))
      → refusal body message ≡ none
      → server.being_killed ≡ false
      → (job : Job V) × (handle_message server body message log ≡ (returned (some job), log))
        × IsJob body message job
  unfolding handle_message get_provider_for_method provider_handle_message
  handle_message_accepted body message log e k =
      let (m, args, kwargs, found, has_args, has_kwargs, fits) = refusal-none body message e in
      let (keyed, provided) = find_provider_sound message.routing_key server.providers m found in
      (
        record {
          method_name = m;
          args = args;
          kwargs = kwargs;
          context_data = unpack_message_headers message.headers;
        },
        ground arith,
        (keyed, provided, has_args, has_kwargs, fits, refl),
      )

  pub handle_message_requeued :
      (body : Body V) (message : Message V) (log : List (Effect R))
      → refusal body message ≡ none
      → server.being_killed ≡ true
      → message.link ≡ up
      → handle_message server body message log ≡ (returned none, log ++ requeued message.tag ∷ [])
  unfolding handle_message get_provider_for_method provider_handle_message requeue_message
  handle_message_requeued body message log e k connected = ground arith
