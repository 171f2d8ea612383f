-- ===== src/Messaging/Headers/Chain.antt =====
-- A remote call, from the context of the calling worker (nameko/containers.py) through the message
-- headers (nameko/messaging.py) to the context of the called worker.
use nameko.Prelude.{
  ℕ, ◌+◌, ◌-◌, ◌≤◌, String, ◌≡◌, refl, ap, Option, none, some, List, [], ◌∷◌, ◌++◌, arith,
  string_eq, ◌==◌, if◌then◌else◌, length, length-append, subst,
}
use nameko.Prelude.Dict.{Dict, IsDict, get, put, get-put, get-remove, put-IsDict}
use nameko.Containers.Context.{
  WorkerContext, Datum, ids, call_id, context_data, new_context, call_id_stack_context_key,
  immediate_parent_call_id, origin_call_id, parent_ids, stack_length, parent_calls_tracked,
}
use nameko.Containers.Context.Stack.{last?-newest}
use nameko.Containers.Context.Trail.{IsContext, trail, context_data-eq-put, new_context-IsContext}
use nameko.Messaging.Headers.{get_message_headers, unpack_message_headers}
use nameko.Messaging.Headers.RoundTrip.{
  not_null, get-without_null, without_null-IsDict, unpack-get_message_headers,
}

module _ {V : Type 0} (service method : String) (tracked : Option ℕ) (args : Option (List V))
    (kwargs : Option (Dict String V)) where
  -- The context that an entrypoint's message handler makes from the headers of a message.
  unfoldable pub receive : Dict String (Datum V) → WorkerContext V
  receive headers =
      new_context service method tracked args kwargs (some (unpack_message_headers headers))

  -- What the called worker knows of the worker that called it.
  pub record IsCallee (own : String) (caller callee : WorkerContext V) : Type 0 where
    pub is_context : IsContext callee
    pub parents : callee.parent_stack ≡ ids (trail own caller)
    pub parent : immediate_parent_call_id callee ≡ some own
    pub entries :
        (k : String)
        → get k callee.context
          ≡ (if call_id_stack_context_key == k then none else not_null (get k caller.context))

  module _ (fresh : String) (caller : WorkerContext V) (h : IsContext caller) where
    abbrev own : String
    own = (call_id fresh caller).0

    abbrev handed : Dict String (Datum V)
    handed = put call_id_stack_context_key (ids (trail own caller)) caller.context

    handed-IsDict : IsDict handed
    handed-IsDict = put-IsDict call_id_stack_context_key _ caller.context h.distinct

    get-received :
        (k : String)
        → get k (unpack_message_headers (get_message_headers handed)) ≡ not_null (get k handed)
    get-received k =
        rw (unpack-get_message_headers handed handed-IsDict)
          (get-without_null k handed handed-IsDict)

    get-received_stack :
        get call_id_stack_context_key (unpack_message_headers (get_message_headers handed))
        ≡ some (ids (trail own caller))
    get-received_stack = ground (
      arith,
      get-received call_id_stack_context_key,
      get-put call_id_stack_context_key call_id_stack_context_key (ids (trail own caller))
          caller.context,
    )

    get-received_entry :
        (k : String)
        → get k (receive (get_message_headers handed)).context
          ≡ (if call_id_stack_context_key == k then none else not_null (get k caller.context))
    unfolding receive new_context
    get-received_entry k = ground (
      arith,
      get-received k,
      get-put call_id_stack_context_key k (ids (trail own caller)) caller.context,
      get-remove call_id_stack_context_key k (unpack_message_headers (get_message_headers handed)),
    )

    parent_stack-received :
        (receive (get_message_headers handed)).parent_stack ≡ ids (trail own caller)
    unfolding receive new_context
    parent_stack-received = ground (arith, get-received_stack)

    parent-received : immediate_parent_call_id (receive (get_message_headers handed)) ≡ some own
    unfolding immediate_parent_call_id
    parent-received =
        rw parent_stack-received
          (last?-newest (parent_calls_tracked caller) (parent_ids caller.parent_stack) own)

    receive-IsContext : IsContext (receive (get_message_headers handed))
    unfolding receive
    receive-IsContext =
        new_context-IsContext service method tracked args kwargs _ (trail own caller)
          (rw (unpack-get_message_headers handed handed-IsDict)
            (without_null-IsDict handed handed-IsDict))
          (rw get-received_stack refl)

    -- The headers of a call from a well-formed context tell the called worker the id of its caller
    -- and the stack above it; every other entry of the caller's data arrives, except those that are
    -- None. The new context is well formed again, so the same holds of the calls that it makes.
    pub receive-IsCallee :
        (d : Dict String (Datum V))
        → (context_data fresh caller).0 ≡ some d
        → IsCallee (call_id fresh caller).0 caller (receive (get_message_headers d))
    receive-IsCallee d e =
        let same : handed ≡ d = cc (context_data-eq-put fresh caller h) in
        subst (λ x. IsCallee own caller (receive (get_message_headers x))) same
          (record {
            is_context = receive-IsContext;
            parents = parent_stack-received;
            parent = parent-received;
            entries = get-received_entry;
          })

    -- If the caller has a chain of parents no longer than the number of parent calls that are
    -- tracked, the worker that it calls knows the same first call of the chain.
    pub origin_kept :
        (first : String) (rest : List String) (d : Dict String (Datum V))
        → parent_ids caller.parent_stack ≡ first ∷ rest
        → length rest + 2 ≤ stack_length caller
        → (context_data fresh caller).0 ≡ some d
        → origin_call_id (receive (get_message_headers d)) ≡ origin_call_id caller
    unfolding origin_call_id
    origin_kept first rest d chain short e =
        let all : length (parent_ids caller.parent_stack ++ own ∷ []) - stack_length caller ≡ 0 =
          omega
            (arith, length-append (parent_ids caller.parent_stack) (own ∷ []), ap length chain) in
        rw ((receive-IsCallee d e).parents, all, chain) refl
