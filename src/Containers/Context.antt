-- ===== src/Containers/Context.antt =====
-- `WorkerContext` of nameko/containers.py: the ids of a call and of the calls that led to it.
pub mod Stack
pub mod Trail
use nameko.Prelude.{
  ℕ, suc, ◌+◌, ◌-◌, String, Option, none, some, List, [], ◌∷◌, ◌++◌, length, drop, head?, last?,
  string_eq,
}
use nameko.Prelude.Dict.{Dict, get, put, remove}
use nameko.Prelude.Text.{join_dot}

-- A value of the context data: None, a list of call ids, or a value that is not iterable.
pub data Datum (V : Type 0) : Type 0 where
  null : Datum V
  ids : List String → Datum V
  scalar : V → Datum V

abbrev pub call_id_stack_context_key : String
call_id_stack_context_key = "call_id_stack"

abbrev pub default_parent_calls_tracked : ℕ
default_parent_calls_tracked = 10

-- What the context reads of its container and entrypoint, and its own attributes. The attribute
-- `_call_id` is None until its property is first read, and so is `_call_id_stack`.
pub record WorkerContext (V : Type 0) : Type 0 where
  pub service_name : String
  pub method_name : String
  -- config.get(PARENT_CALLS_CONFIG_KEY)
  pub parent_calls : Option ℕ
  pub args : List V
  pub kwargs : Dict String V
  pub context : Dict String (Datum V)
  pub parent_stack : Datum V
  pub own_id : Option String
  pub own_stack : Option (List String)

abbrev default_to {ℓ} : {A : Type ℓ} → A → Option A → A
default_to a none = a
default_to a (some b) = b

module _ {V : Type 0} where
  -- `__init__`; the arguments that may be None have their defaults
  unfoldable pub new_context :
      String
      → String
      → Option ℕ
      → Option (List V)
      → Option (Dict String V)
      → Option (Dict String (Datum V))
      → WorkerContext V
  new_context service_name method_name parent_calls args kwargs given =
      let entries = default_to [] given in
      record {
        service_name = service_name;
        method_name = method_name;
        parent_calls = parent_calls;
        args = default_to [] args;
        kwargs = default_to [] kwargs;
        context = remove call_id_stack_context_key entries;
        parent_stack = default_to (ids []) (get call_id_stack_context_key entries);
        own_id = none;
        own_stack = none;
      }

  -- The property `call_id`. `fresh` is what `new_call_id()` would return; it is used once.
  unfoldable pub call_id : String → WorkerContext V → String × WorkerContext V
  call_id fresh ctx = elim ctx.own_id [
    | none ↦
        let made = join_dot (join_dot ctx.service_name ctx.method_name) fresh in
        (made, record ctx { own_id = some made })
    | some made ↦ (made, ctx)
  ]

  -- A value that `deque.extend` iterates over; None and scalars raise TypeError.
  abbrev pub iterate : Datum V → Option (List String)
  iterate (ids l) = some l
  iterate _ = none

-- deque(maxlen=m).append(x) on the items `l`: at the limit the item at the other end is dropped.
unfoldable pub deque_append {ℓ} : {A : Type ℓ} → ℕ → List A → A → List A
deque_append m l x = drop (suc (length l) - m) (l ++ x ∷ [])

-- deque.extend: an append for each item
unfoldable pub deque_extend {ℓ} : {A : Type ℓ} → ℕ → List A → List A → List A
unfolding deque_append
deque_extend m l [] = l
deque_extend m l (x ∷ xs) = deque_extend m (deque_append m l x) xs

module _ {V : Type 0} where
  abbrev pub parent_calls_tracked : WorkerContext V → ℕ
  parent_calls_tracked ctx = default_to default_parent_calls_tracked ctx.parent_calls

  abbrev pub stack_length : WorkerContext V → ℕ
  stack_length ctx = parent_calls_tracked ctx + 1

  abbrev fill_stack :
      String → WorkerContext V → Option (List String) → Option (List String) × WorkerContext V
  fill_stack fresh ctx none = (none, ctx)
  fill_stack fresh ctx (some parents) =
      let (own, ctx') = call_id fresh ctx in
      let m = stack_length ctx in
      let filled = deque_append m (deque_extend m [] parents) own in
      (some filled, record ctx' { own_stack = some filled })

  -- The property `call_id_stack`; `none` is the TypeError of `deque.extend`.
  unfoldable pub call_id_stack : String → WorkerContext V → Option (List String) × WorkerContext V
  unfolding deque_extend call_id
  call_id_stack fresh ctx = elim ctx.own_stack [
    | some filled ↦ (some filled, ctx)
    | none ↦ fill_stack fresh ctx (iterate ctx.parent_stack)
  ]

  abbrev with_stack :
      Option (List String) × WorkerContext V → Option (Dict String (Datum V)) × WorkerContext V
  with_stack (none, ctx) = (none, ctx)
  with_stack (some l, ctx) = (some (put call_id_stack_context_key (ids l) ctx.context), ctx)

  -- The property `context_data`: a copy of the data with the stack of this call in it.
  unfoldable pub context_data :
      String → WorkerContext V → Option (Dict String (Datum V)) × WorkerContext V
  unfolding call_id_stack
  context_data fresh ctx = with_stack (call_id_stack fresh ctx)

  abbrev pub parent_ids : Datum V → List String
  parent_ids (ids l) = l
  parent_ids _ = []

  -- The properties `origin_call_id` and `immediate_parent_call_id`: None if there is no parent.
  unfoldable pub origin_call_id : WorkerContext V → Option String
  origin_call_id ctx = head? (parent_ids ctx.parent_stack)

  unfoldable pub immediate_parent_call_id : WorkerContext V → Option String
  immediate_parent_call_id ctx = last? (parent_ids ctx.parent_stack)
