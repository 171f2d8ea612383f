-- ===== src/Messaging/Consuming/Invariant.antt =====
-- What holds of a queue consumer (nameko/messaging.py) whatever happened to it.
use nameko.Prelude.{ℕ, ℕ_eq, ◌≡◌, true, false, not, ◌&&◌, ◌||◌, List, [], ◌∷◌, arith, refl, ==-refl}
use nameko.Prelude.Set.{contains, discard, contains-add, contains-discard, Distinct}
use nameko.Action.{returned}
use nameko.Messaging.Consuming.{QueueConsumer, cancel_each, add_all, is_empty}

-- Providers have a consumer or were released; those that wait have one; a stop is requested only
-- when all were released.
pub record Inv (q : QueueConsumer) : Type 0 where
  pub covered :
      (p : ℕ)
      → q.set_up ≡ true
      → contains p q.providers ≡ true
      → (contains p q.consumers || contains p q.released) ≡ true
  pub waiting :
      (p : ℕ) → contains p q.pending_remove_providers ≡ true → contains p q.consumers ≡ true
  pub distinct : Distinct q.pending_remove_providers
  pub prepared : q.consumers_ready ≡ true → q.set_up ≡ true
  pub stopping :
      (p : ℕ) → q.should_stop ≡ true → contains p q.providers ≡ true → contains p q.released ≡ true

pub contains-add_all :
    (p : ℕ) (l s : List ℕ) → contains p (add_all l s) ≡ (contains p l || contains p s)
unfolding contains
contains-add_all p [] s = refl
contains-add_all p (x ∷ l) s =
    ground (arith, contains-add_all p l s, contains-add x p (add_all l s))

-- The consumers that are asked for are there, so each is cancelled.
pub cancel_each_lem :
    (l consumers : List ℕ)
    → Distinct l
    → ((p : ℕ) → contains p l ≡ true → contains p consumers ≡ true)
    → (left : List ℕ) × (cancel_each l consumers ≡ returned left)
      × ((p : ℕ) → contains p left ≡ (contains p consumers && not (contains p l)))
unfolding cancel_each contains
cancel_each_lem [] consumers d h = (consumers, refl, λ p. ground arith)
cancel_each_lem (x ∷ l) consumers d h =
    let there = h x (ground (arith, ==-refl x)) in
    let (left, e, members) = cancel_each_lem l (discard x consumers) d.1 (λ p m. ground (
      arith,
      h p (ground (arith, m)),
      d.0,
      m,
      contains-discard x p consumers,
      ℕ_eq.equal_iff x p,
    )) in
    (
      left,
      ground (arith, e, there),
      (λ p. ground (arith, members p, contains-discard x p consumers, ℕ_eq.equal_iff x p)),
    )

pub is_empty_none : (p : ℕ) (l : List ℕ) → is_empty l ≡ true → contains p l ≡ false
unfolding contains
is_empty_none p [] h = refl
is_empty_none p (x ∷ l) h = cc
