-- ===== src/Rpc/Registration/Safety.antt =====
-- An RpcConsumer leaves the queue consumer once, when all of its methods are unregistered
-- (nameko/rpc.py).
use nameko.Prelude.{ℕ, ℕ_eq, ◌≡◌, inl, inr, true, false, List, [], ◌∷◌, refl, arith, Bool-cases}
use nameko.Prelude.Set.{contains, add, discard}
use nameko.Action.{returned}
use nameko.Rpc.Registration.{RpcConsumer, is_empty, leave_queue_consumer, remove_provider}
use nameko.Rpc.Registration.Invariant.{IsSound, one_leaves}

-- The call that is in the queue consumer is the only one, and finds the event unsent.
pub leave_lem :
    (p : ℕ) (r : RpcConsumer)
    → contains p r.leaving ≡ true
    → IsSound r
    → leave_queue_consumer p r
      ≡ returned (record r {
        unregistered_from_queue_consumer = true;
        leaving = discard p r.leaving;
        waiting = add p r.waiting;
      })
unfolding leave_queue_consumer
leave_lem p r h s =
    let (_, one) = one_leaves p r.leaving h (omega (arith, s.balance, s.once)) in
    let unsent : r.unregistered_from_queue_consumer ≡ false =
      ground (arith, s.balance, s.once, one) in
    rw (unsent, leave_queue_consumer) refl

pub leave-IsSound :
    (p : ℕ) (r t : RpcConsumer)
    → contains p r.leaving ≡ true
    → leave_queue_consumer p r ≡ returned t
    → IsSound r
    → IsSound t
leave-IsSound p r t h e s =
    let (none_more, one) = one_leaves p r.leaving h (omega (arith, s.balance, s.once)) in
    let left = record r {
      unregistered_from_queue_consumer = true;
      leaving = discard p r.leaving;
      waiting = add p r.waiting;
    } in
    let it : t ≡ left = ground (arith, leave_lem p r h s, e) in
    rw it (record {
      balance = ground (arith, none_more, s.balance, s.once, one);
      once = s.once;
      all_asked = s.all_asked;
      some_left = λ a. absurd (omega (arith, a, s.balance, one));
      last = s.last;
      fresh = s.fresh;
      none_leaving = λ _. none_more;
      none_registered = s.none_registered;
    })

-- A call that removes its provider, as the last one or not, or finds it gone.
pub data Removed (p : ℕ) (r t : RpcConsumer) : Type 0 where
  gone :
      contains p r.providers ≡ false
      → t ≡ record r { waiting = discard p r.waiting }
      → Removed p r t
  others :
      contains p r.providers ≡ true
      → t ≡ record r { waiting = discard p r.waiting; providers = discard p r.providers }
      → Removed p r t
  last_one :
      contains p r.providers ≡ true
      → discard p r.providers ≡ []
      → t ≡ record r {
        waiting = discard p r.waiting;
        providers = discard p r.providers;
        last_provider_unregistered = true;
      }
      → Removed p r t

is_empty_lem : (l : List ℕ) → is_empty l ≡ true → l ≡ []
is_empty_lem [] h = refl
is_empty_lem (x ∷ l) h = absurd (cc)

pub remove_lem :
    (p : ℕ) (r : RpcConsumer)
    → IsSound r
    → (t : RpcConsumer) × (remove_provider p r ≡ returned t) × Removed p r t
unfolding remove_provider contains
remove_lem p r s = elim (Bool-cases (contains p r.providers)) [
  | inr g ↦ (record r { waiting = discard p r.waiting }, ground (arith, g), gone g refl)
  | inl there ↦
      let unsent : r.last_provider_unregistered ≡ false =
        elim (Bool-cases r.last_provider_unregistered) [
          | inr no_it ↦ no_it
          | inl yes_it ↦ ground (arith, s.last yes_it, there)
        ] in
      elim (Bool-cases (is_empty (discard p r.providers))) [
        | inl e ↦ (
          record r {
            waiting = discard p r.waiting;
            providers = discard p r.providers;
            last_provider_unregistered = true;
          },
          ground (arith, there, e, unsent),
          last_one there (is_empty_lem (discard p r.providers) e) refl,
        )
        | inr e ↦ (
          record r { waiting = discard p r.waiting; providers = discard p r.providers },
          ground (arith, there, e),
          others there refl,
        )
      ]
]

-- How far a consumer is that was asked by all of its methods: some call is in the queue consumer and
-- will not raise when it is let go, or the event was sent and no call raises when it is woken.
pub data Leaves (r : RpcConsumer) : Type 0 where
  in_queue_consumer :
      (p : ℕ) (t : RpcConsumer)
      → contains p r.leaving ≡ true
      → leave_queue_consumer p r ≡ returned t
      → Leaves r
  has_left :
      r.unregistered_from_queue_consumer ≡ true
      → r.leaving ≡ []
      → ((p : ℕ) → (t : RpcConsumer) × (remove_provider p r ≡ returned t))
      → Leaves r
