-- ===== src/Containers/Context/Trail.antt =====
-- The call id stack of a `WorkerContext` (nameko/containers.py).
use nameko.Prelude.{
  ℕ, ◌≤◌, String, ◌≡◌, Option, some, List, [], ◌∷◌, ◌++◌, arith, length, last?, string_eq,
  Option-cases, inl, inr,
}
use nameko.Prelude.Dict.{Dict, IsDict, get, put, remove-IsDict, or_else}
use nameko.Containers.Context.{
  WorkerContext, Datum, ids, call_id, call_id_stack, context_data, stack_length,
  parent_calls_tracked, parent_ids, new_context, call_id_stack_context_key,
}
use nameko.Containers.Context.Stack.{newest, deque_fill, length-newest, last?-newest}

-- The ids of the calls above this one, with its own id `own` at the end, cut to the stack's length.
abbrev pub trail : {V : Type 0} → String → WorkerContext V → List String
trail own ctx = newest (stack_length ctx) (parent_ids ctx.parent_stack ++ own ∷ [])

-- What holds of a context from its construction on: its data is a dict, the parents' stack is a
-- list, and a stack that was computed belongs to the id that was made.
pub record IsContext {V : Type 0} (ctx : WorkerContext V) : Type 0 where
  pub distinct : IsDict ctx.context
  pub parents : ctx.parent_stack ≡ ids (parent_ids ctx.parent_stack)
  pub coherent :
      (l : List String)
      → ctx.own_stack ≡ some l
      → (own : String) × (ctx.own_id ≡ some own) × (l ≡ trail own ctx)

module _ {V : Type 0} where
  -- Reading the id fixes it and changes nothing else.
  own_id-call_id :
      (fresh : String) (ctx : WorkerContext V)
      → (call_id fresh ctx).1 ≡ record ctx { own_id = some (call_id fresh ctx).0 }
  unfolding call_id
  own_id-call_id fresh ctx = ground arith

  stack-call_id :
      (fresh : String) (ctx : WorkerContext V) (own : String)
      → ctx.own_id ≡ some own
      → (call_id fresh ctx).0 ≡ own
  unfolding call_id
  stack-call_id fresh ctx own e = ground arith

  pub call_id_stack-eq-trail :
      (fresh : String) (ctx : WorkerContext V)
      → IsContext ctx
      → (call_id_stack fresh ctx).0 ≡ some (trail (call_id fresh ctx).0 ctx)
  unfolding call_id_stack
  call_id_stack-eq-trail fresh ctx h = elim (Option-cases ctx.own_stack) [
    | inl empty ↦ ground (
      arith,
      h.parents,
      deque_fill (stack_length ctx) (parent_ids ctx.parent_stack) (call_id fresh ctx).0,
    )
    | inr (l, full) ↦
        let (own, made, same) = h.coherent l full in
        ground (arith, stack-call_id fresh ctx own made)
  ]

  context-call_id_stack :
      (fresh : String) (ctx : WorkerContext V) → (call_id_stack fresh ctx).1.context ≡ ctx.context
  unfolding call_id_stack call_id
  context-call_id_stack fresh ctx = ground arith

  -- The data for the next call: this context's own, with its trail under the reserved key.
  pub context_data-eq-put :
      (fresh : String) (ctx : WorkerContext V)
      → IsContext ctx
      → (context_data fresh ctx).0
        ≡ some (put call_id_stack_context_key (ids (trail (call_id fresh ctx).0 ctx)) ctx.context)
  unfolding context_data
  context_data-eq-put fresh ctx h =
      ground (arith, call_id_stack-eq-trail fresh ctx h, context-call_id_stack fresh ctx)

  pub new_context-IsContext :
      (service method : String) (tracked : Option ℕ) (args : Option (List V))
      (kwargs : Option (Dict String V)) (given : Dict String (Datum V)) (l : List String)
      → IsDict given
      → or_else (get call_id_stack_context_key given) (some (ids [])) ≡ some (ids l)
      → IsContext (new_context service method tracked args kwargs (some given))
  unfolding new_context
  new_context-IsContext service method tracked args kwargs given l h p = record {
    distinct = remove-IsDict call_id_stack_context_key given h;
    parents = ground arith;
    coherent = λ x e. cc;
  }

  stack_again :
      (fresh later : String) (ctx : WorkerContext V) {l : List String}
      → (call_id_stack fresh ctx).0 ≡ some l
      → (call_id_stack later (call_id_stack fresh ctx).1).0 ≡ some l
  unfolding call_id_stack
  stack_again fresh later ctx e = ground arith

  id_again :
      (fresh later : String) (ctx : WorkerContext V)
      → IsContext ctx
      → (call_id later (call_id_stack fresh ctx).1).0 ≡ (call_id fresh ctx).0
  unfolding call_id_stack call_id
  id_again fresh later ctx h = elim (Option-cases ctx.own_stack) [
    | inl empty ↦ ground (arith, h.parents)
    | inr (l, full) ↦ let (own, made, same) = h.coherent l full in ground arith
  ]

  -- The stack that a well-formed context hands on is never longer than the configuration allows, ends with the
  -- call's own id, and does not change when it is read again, whatever id would be made then.
  pub call_id_stack_bounded :
      (fresh later : String) (ctx : WorkerContext V)
      → IsContext ctx
      → (l : List String) × ((call_id_stack fresh ctx).0 ≡ some l)
        × (length l ≤ stack_length ctx)
        × (last? l ≡ some (call_id fresh ctx).0)
        × ((call_id_stack later (call_id_stack fresh ctx).1).0 ≡ some l)
        × ((call_id later (call_id_stack fresh ctx).1).0 ≡ (call_id fresh ctx).0)
  call_id_stack_bounded fresh later ctx h = (
    trail (call_id fresh ctx).0 ctx,
    call_id_stack-eq-trail fresh ctx h,
    length-newest _ _,
    last?-newest (parent_calls_tracked ctx) (parent_ids ctx.parent_stack) _,
    stack_again fresh later ctx (call_id_stack-eq-trail fresh ctx h),
    id_again fresh later ctx h,
  )
