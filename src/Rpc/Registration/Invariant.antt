-- ===== src/Rpc/Registration/Invariant.antt =====
-- What holds of an RpcConsumer while its methods are registered and unregistered (nameko/rpc.py).
use nameko.Prelude.{
  ℕ, ℕ_eq, suc, ◌+◌, ◌≤◌, ◌<◌, ◌≡◌, inl, inr, Bool, true, false, List, [], ◌∷◌, refl, arith, length,
  Bool-cases,
}
use nameko.Prelude.Set.{contains, add, discard}
use nameko.Action.{returned}
use nameko.Rpc.Registration.{
  RpcConsumer, new_rpc_consumer, register_provider, minus, is_empty, unregister_provider, stop,
}

-- Whether an event was sent, as a number.
abbrev pub sent : Bool → ℕ
sent true = 1
sent false = 0

-- What holds in every reachable state.
pub record IsSound (r : RpcConsumer) : Type 0 where
  pub balance : r.asked ≡ length r.leaving + sent r.unregistered_from_queue_consumer
  pub once : r.asked ≤ 1
  pub all_asked :
      (p : ℕ)
      → 0 < r.asked
      → contains p r.providers ≡ true
      → contains p r.unregistering_providers ≡ true
  pub some_left :
      r.asked ≡ 0
      → is_empty r.unregistering_providers ≡ false
      → is_empty (minus r.providers r.unregistering_providers) ≡ false
  pub last : r.last_provider_unregistered ≡ true → r.providers ≡ []
  pub fresh : r.unregistering_providers ≡ [] → r.last_provider_unregistered ≡ false
  pub none_leaving : r.unregistering_providers ≡ [] → r.leaving ≡ []
  pub none_registered : r.providers_registered ≡ false → r.providers ≡ []

pub new-IsSound : IsSound new_rpc_consumer
unfolding contains minus
new-IsSound = record {
  balance = refl;
  once = omega arith;
  all_asked = λ p h. absurd (omega arith);
  some_left = λ a e. absurd (cc);
  last = λ e. refl;
  fresh = λ e. refl;
  none_leaving = λ e. refl;
  none_registered = λ e. refl;
}

minus_empty :
    (p : ℕ) (l gone : List ℕ)
    → is_empty (minus l gone) ≡ true
    → contains p l ≡ true
    → contains p gone ≡ true
unfolding minus contains
minus_empty p [] gone e h = absurd (cc)
minus_empty p (x ∷ l) gone e h = ground (arith, minus_empty p l gone, ℕ_eq.equal_iff x p, e, h)

-- One call is in the queue consumer.
pub one_leaves :
    (p : ℕ) (l : List ℕ) → contains p l ≡ true → length l ≤ 1 → (discard p l ≡ []) × (length l ≡ 1)
unfolding contains discard
one_leaves p [] h n = absurd (cc)
one_leaves p (x ∷ []) h n = (ground (arith, h), refl)
one_leaves p (x ∷ y ∷ l) h n = absurd (omega arith)

pub none_there : (l : List ℕ) → length l ≡ 0 → l ≡ []
none_there [] h = refl
none_there (x ∷ l) h = absurd (omega arith)

pub register-IsSound :
    (p : ℕ) (r : RpcConsumer)
    → r.unregistering_providers ≡ []
    → r.unregistered_from_queue_consumer ≡ false
    → IsSound r
    → IsSound (register_provider p r)
unfolding register_provider
register-IsSound p r u e s =
    let zero_asked : r.asked ≡ 0 = ground (arith, s.balance, s.none_leaving u, e) in
    record {
      balance = s.balance;
      once = s.once;
      all_asked = λ q h. absurd (omega (arith, zero_asked, h));
      some_left = λ a g. ground (arith, u, g);
      last = λ g. ground (arith, s.fresh u, g);
      fresh = s.fresh;
      none_leaving = s.none_leaving;
      none_registered = λ g. absurd (cc);
    }

pub stop-IsSound :
    (r t : RpcConsumer)
    → r.unregistering_providers ≡ []
    → r.unregistered_from_queue_consumer ≡ false
    → stop r ≡ returned t
    → IsSound r
    → IsSound t
unfolding stop contains
stop-IsSound r t u e h s = elim (Bool-cases r.providers_registered) [
  | inl registered ↦ let it : t ≡ r = ground (arith, registered, h) in rw it s
  | inr none_registered ↦
      let empty = s.none_registered none_registered in
      let none_asked : r.asked ≡ 0 = ground (arith, s.balance, s.none_leaving u, e) in
      let it : t ≡ record r { unregistered_from_queue_consumer = true; asked = suc r.asked } =
        ground (arith, none_registered, e, h) in
      rw it (record {
        balance = ground (arith, none_asked, s.none_leaving u);
        once = omega (arith, none_asked);
        all_asked = λ p k m. ground (arith, empty, m);
        some_left = λ a. absurd (omega (arith, a));
        last = s.last;
        fresh = s.fresh;
        none_leaving = s.none_leaving;
        none_registered = s.none_registered;
      })
]

add_fresh : (p : ℕ) (l : List ℕ) → l ≡ [] → add p l ≡ p ∷ []
unfolding add contains
add_fresh p l e = rw e refl

add_some : (p : ℕ) (l : List ℕ) → is_empty (add p l) ≡ false
unfolding add contains
add_some p [] = refl
add_some p (x ∷ l) = ground arith

pub unregister-IsSound :
    (p : ℕ) (r : RpcConsumer)
    → contains p r.providers ≡ true
    → contains p r.unregistering_providers ≡ false
    → IsSound r
    → IsSound (unregister_provider p r)
unfolding unregister_provider
unregister-IsSound p r there new s =
    let none_asked : r.asked ≡ 0 = ground (arith, s.all_asked p, there, new) in
    let gone = add p r.unregistering_providers in
    let some_gone = add_some p r.unregistering_providers in
    elim (Bool-cases (is_empty (minus r.providers gone))) [
      | inl all_gone ↦
          let nothing = none_there r.leaving (omega (arith, s.balance, none_asked)) in
          let one = add_fresh p r.leaving nothing in
          rw (all_gone, unregister_provider)
            (record {
              balance = ground (arith, one, s.balance, none_asked, nothing);
              once = omega (arith, none_asked);
              all_asked = λ q k. minus_empty q r.providers gone all_gone;
              some_left = λ a. absurd (omega (arith, a));
              last = s.last;
              fresh = λ g. ground (arith, some_gone, g);
              none_leaving = λ g. ground (arith, some_gone, g);
              none_registered = s.none_registered;
            })
      | inr left ↦
          rw (left, unregister_provider)
            (record {
              balance = s.balance;
              once = s.once;
              all_asked = λ q k. absurd (omega (arith, none_asked, k));
              some_left = λ a g. left;
              last = s.last;
              fresh = λ g. ground (arith, some_gone, g);
              none_leaving = λ g. ground (arith, some_gone, g);
              none_registered = s.none_registered;
            })
    ]
