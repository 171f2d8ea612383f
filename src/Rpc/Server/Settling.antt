-- ===== src/Rpc/Server/Settling.antt =====
-- How requests to a service are settled (nameko/rpc.py).
use nameko.Prelude.{
  ℕ, ◌+◌, String, ◌≡◌, ◌⊎◌, inl, inr, refl, true, Option, none, some, List, [], ◌∷◌, ◌++◌, arith,
  Bool-cases, Option-cases, nat_eq, if◌then◌else◌,
}
use nameko.Exceptions.{text, ok, safe_values}
use nameko.Exceptions.Registry.{
  Exc, ExcType, Serialized, serialize, get_module_path, method_not_found, malformed_request,
  incorrect_signature,
}
use nameko.Messaging.Delivery.{Message, Reply, Effect, acked, requeued, replied}
use nameko.Action.{returned}
use nameko.Messaging.Delivery.Counts.{settlements, settlements-append}
use nameko.Rpc.Server.{
  Body, Job, Server, both, find_provider, last_part, bad_request, one_text, serve,
}
use nameko.Rpc.Server.Replying.{IsAnswerable, written, answer, handle_result_answers}
use nameko.Rpc.Server.Requests.{
  refusal, handle_message_refused, handle_message_accepted, handle_message_requeued,
}

bad_request-written :
    (type : ExcType) (message : String)
    → (error : Option Serialized) × (written (some (bad_request type message)) ≡ ok error)
unfolding serialize safe_values
bad_request-written type message = (
  some (record {
    exc_type = some type.name;
    exc_path = some (get_module_path type);
    exc_args = some (one_text message);
    value = some (text message);
  }),
  refl,
)

-- A refusal has a text for its argument, so it can be written.
refusal_is_bad_request :
    {V R : Type 0} (server : Server V R) (body : Body V) (message : Message V) (exc : Exc)
    → refusal server body message ≡ some exc
    → (type : ExcType) × (s : String) × (exc ≡ bad_request type s)
refusal_is_bad_request server body message exc e =
    elim (Option-cases (find_provider server.service_name message.routing_key server.providers)) [
      | inl absent ↦ (method_not_found, last_part "" message.routing_key, ground arith)
      | inr (m, found) ↦ elim (Option-cases (both body.args body.kwargs)) [
        | inl missing ↦ (malformed_request, "Message missing `args` or `kwargs`", ground arith)
        | inr (call, given) ↦ elim (Option-cases (server.getcallargs m call.0 call.1)) [
          | inl fits ↦ absurd (ground arith)
          | inr (s, wrong) ↦ (incorrect_signature, s, ground arith)
        ]
      ]
    ]

module _ {V R : Type 0} (server : Server V R) (worker : Job V → Option R × Option Exc) where
  -- The publisher does not fail, and the exceptions of the methods can be written.
  pub record IsSound : Type 0 where
    pub publishes : (reply : Reply R) → server.publish reply ≡ none
    pub writes : (job : Job V) → (error : Option Serialized) × (written (worker job).1 ≡ ok error)

  -- The one reply and acknowledgement, or the one requeue of a container that is being killed.
  abbrev pub Settled : Message V → List (Effect R) → List (Effect R) → Type 0
  Settled message before after =
      (server.being_killed ≡ true) × (after ≡ before ++ requeued message.tag ∷ [])
      ⊎ ((reply : Reply R) × (message.reply_to ≡ some reply.routing_key)
          × (message.correlation_id ≡ reply.correlation_id)
          × (after ≡ before ++ replied reply ∷ acked message.tag ∷ []))

  module _ (sound : IsSound) (body : Body V) (message : Message V) (a : IsAnswerable server message)
      (log : List (Effect R)) where
    -- Let the publisher not fail and let the exceptions of methods be serializable. A request that
    -- names a known content type and a queue to reply to, over a channel that is up, is settled: no
    -- exception escapes, and the effects are one reply to that queue under the request's
    -- correlation id followed by one acknowledgement, or, if the container is being killed, one
    -- requeue.
    pub serve_settles :
        ((serve server worker body message log).0 ≡ returned tt)
        × Settled message log (serve server worker body message log).1
    unfolding serve
    serve_settles = elim (Option-cases (refusal server body message)) [
      | inr (exc, refused) ↦
          let (type, s, same) = refusal_is_bad_request server body message exc refused in
          let (error, w) = bad_request-written type s in
          let w' : written (some exc) ≡ ok error = rw same w in
          let answered =
            handle_result_answers server message a none (some exc) error log w'
              (sound.publishes _) in
          let step = handle_message_refused server body message exc log refused in
          (
            ground (arith, step, answered),
            inr (
              answer server message a none error,
              a.addressed,
              refl,
              ground (arith, step, answered),
            ),
          )
      | inl accepted ↦ elim (Bool-cases server.being_killed) [
        | inl killed ↦
            let step =
              handle_message_requeued server body message log accepted killed a.connected in
            (ground (arith, step), inl (killed, ground (arith, step)))
        | inr alive ↦
            let (job, step, fits) =
              handle_message_accepted server body message log accepted alive in
            let (error, w) = sound.writes job in
            let answered =
              handle_result_answers server message a (worker job).0 (worker job).1 error log w
                (sound.publishes _) in
            (
              ground (arith, step, answered),
              inr (
                answer server message a (worker job).0 error,
                a.addressed,
                refl,
                ground (arith, step, answered),
              ),
            )
      ]
    ]

-- A queue of requests, one after the other.
module _ {V R : Type 0} (server : Server V R) (worker : Job V → Option R × Option Exc) where
  abbrev pub serve_all : List (Body V × Message V) → List (Effect R) → List (Effect R)
  serve_all [] log = log
  serve_all ((body, message) ∷ rest) log = serve_all rest (serve server worker body message log).1

  abbrev pub deliveries : ℕ → List (Body V × Message V) → ℕ
  deliveries tag [] = 0
  deliveries tag ((body, message) ∷ rest) =
      (if nat_eq message.tag tag then 1 else 0) + deliveries tag rest

  abbrev pub AreAnswerable : List (Body V × Message V) → Type 0
  AreAnswerable [] = Unit
  AreAnswerable ((body, message) ∷ rest) = IsAnswerable server message × AreAnswerable rest

  one_settlement :
      (tag : ℕ) (message : Message V) (before after : List (Effect R))
      → Settled server worker message before after
      → settlements tag after ≡ settlements tag before + (if nat_eq message.tag tag then 1 else 0)
  unfolding settlements
  one_settlement tag message before after (inl (_, e)) =
      ground (arith, settlements-append tag before (requeued message.tag ∷ []))
  one_settlement tag message before after (inr (reply, _, _, e)) =
      ground (arith, settlements-append tag before (replied reply ∷ acked message.tag ∷ []))

  -- Let the publisher not fail and let the exceptions of methods be serializable. However many
  -- requests that can be answered are served, the acknowledgements and requeues of a tag are as
  -- many as the deliveries under it.
  pub settlements-serve_all :
      (requests : List (Body V × Message V)) (tag : ℕ) (log : List (Effect R))
      → IsSound server worker
      → AreAnswerable requests
      → settlements tag (serve_all requests log) ≡ settlements tag log + deliveries tag requests
  settlements-serve_all [] tag log sound h = omega arith
  settlements-serve_all ((body, message) ∷ rest) tag log sound h =
      let after = (serve server worker body message log).1 in
      omega (
        arith,
        settlements-serve_all rest tag after sound h.1,
        one_settlement tag message log after
            (serve_settles server worker sound body message h.0 log).1,
      )
