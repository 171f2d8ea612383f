-- ===== src/Messaging/Consuming/Ending.antt =====
-- How a queue consumer (nameko/messaging.py) comes to its end.
use nameko.Prelude.{
  ℕ, ℕ_eq, ◌≡◌, true, false, not, ◌&&◌, ◌||◌, List, [], ◌∷◌, arith, refl, ==-refl, subst, inl, inr,
  Bool-cases,
}
use nameko.Prelude.Set.{contains, contains-add, contains-discard}
use nameko.Action.{returned, raised}
use nameko.Messaging.Consuming.{
  QueueConsumer, sent_again, register_provider, unregister_provider, resume_unregister, is_empty,
  on_iteration, get_consumers, on_consume_ready, kill, new_queue_consumer, Step, Reach, registers,
  connects, gets_ready, unregisters, iterates, wakes, kills, here, next,
}
use nameko.Messaging.Consuming.Shapes.{
  cancelled, unregister_provider-cases, resume_unregister-cases,
}
use nameko.Messaging.Consuming.Invariant.{Inv, contains-add_all, cancel_each_lem}
use nameko.Messaging.Consuming.Preserved.{Reach-Inv}

-- Whatever happened before: once a stop of the consumer is requested, every provider that is still
-- registered was released, which is done when its consumer was cancelled; and while the consumer
-- runs, no iteration fails to find a consumer that it has to cancel.
pub on_iteration-safe :
    {q : QueueConsumer} (p : ℕ)
    → Reach new_queue_consumer q
    → (t : QueueConsumer) × (on_iteration q ≡ returned t)
      × ((q.should_stop && contains p q.providers && not (contains p q.released)) ≡ false)
unfolding on_iteration
on_iteration-safe {q = q} p r =
    let i = Reach-Inv r in
    let (left, e, members) =
      cancel_each_lem q.pending_remove_providers q.consumers i.distinct i.waiting in
    (cancelled left q, ground (arith, e), ground (arith, i.stopping p))

-- Before the consumer is ready the first provider that asks to be unregistered marks the last one as
-- gone, and any other provider that asks raises the AssertionError of an event that is sent twice.
pub unregister_provider-twice :
    (first second : ℕ) (q : QueueConsumer)
    → q.consumers_ready ≡ false
    → q.last_provider_unregistered ≡ false
    → (t : QueueConsumer) × (unregister_provider first q ≡ returned t)
      × (t.providers ≡ q.providers)
      × (unregister_provider second t ≡ raised sent_again)
unfolding unregister_provider
unregister_provider-twice first second q early fresh = (
  record q { last_provider_unregistered = true },
  ground (arith, early, fresh),
  refl,
  ground (arith, early),
)

-- Unless it was killed, a consumer belongs to a provider that is registered and was not released.
record Owned (q : QueueConsumer) : Type 0 where
  owner :
      (p : ℕ)
      → q.should_stop ≡ false
      → contains p q.consumers ≡ true
      → (contains p q.providers && not (contains p q.released)) ≡ true

register_provider-Owned : (p : ℕ) (q : QueueConsumer) → Owned q → Owned (register_provider p q)
unfolding register_provider
register_provider-Owned p q o = record {
  owner = λ r s h. ground (arith, o.owner r s h, contains-add p r q.providers);
}

get_consumers-Owned : (q : QueueConsumer) → q.released ≡ [] → Owned q → Owned (get_consumers q)
unfolding get_consumers contains
get_consumers-Owned q none_left o = record {
  owner = λ r s h.
      ground (arith, o.owner r s, h, none_left, contains-add_all r q.providers q.consumers);
}

on_iteration-Owned : (q t : QueueConsumer) → on_iteration q ≡ returned t → Inv q → Owned q → Owned t
unfolding on_iteration
on_iteration-Owned q t e i o =
    let (left, done, members) =
      cancel_each_lem q.pending_remove_providers q.consumers i.distinct i.waiting in
    let same : cancelled left q ≡ t = ground (arith, done, e) in
    subst Owned same (record {
      owner = λ r s h. ground (
        arith,
        o.owner r,
        s,
        h,
        members r,
        contains-add_all r q.pending_remove_providers q.released,
      );
    })

unregister_provider-Owned :
    (p : ℕ) (q t : QueueConsumer) → unregister_provider p q ≡ returned t → Owned q → Owned t
unregister_provider-Owned p q t e o = elim (unregister_provider-cases p q t e) [
  | inl same ↦ subst Owned same (record { owner = o.owner })
  | inr (ready, same) ↦ subst Owned same (record { owner = o.owner })
]

resume_unregister-Owned :
    (p : ℕ) (q t : QueueConsumer)
    → contains p q.released ≡ true
    → resume_unregister p q ≡ returned t
    → Owned q
    → Owned t
resume_unregister-Owned p q t released e o = elim (resume_unregister-cases p q t e) [
  | inl (absent, same) ↦
      subst Owned same
        (record { owner = λ r s h. ground (arith, o.owner r s h, contains-discard p r q.released) })
  | inr (sent, same) ↦ subst Owned same (record {
    owner = λ r s h. ground (
      arith,
      o.owner r s h,
      released,
      contains-discard p r q.released,
      contains-discard p r q.providers,
      ℕ_eq.equal_iff p r,
    );
  })
]

Step-Owned : {q t : QueueConsumer} → Step q t → Inv q → Owned q → Owned t
unfolding kill on_consume_ready
Step-Owned (registers p early goes) i o = register_provider-Owned p _ o
Step-Owned (connects none_left) i o = get_consumers-Owned _ none_left o
Step-Owned (gets_ready up) i o = record { owner = o.owner }
Step-Owned (unregisters p t registered not_yet e) i o = unregister_provider-Owned p _ t e o
Step-Owned (iterates t up e) i o = on_iteration-Owned _ t e i o
Step-Owned (wakes p t released e) i o = resume_unregister-Owned p _ t released e o
Step-Owned kills i o = record { owner = λ r s h. absurd (cc) }

Reach-Owned : {q : QueueConsumer} → Reach new_queue_consumer q → Owned q
unfolding contains
Reach-Owned here = record { owner = λ r s h. absurd (cc) }
Reach-Owned (next r s) = Step-Owned s (Reach-Inv r) (Reach-Owned r)

none_is_empty : (l : List ℕ) → ((p : ℕ) → contains p l ≡ false) → is_empty l ≡ true
unfolding contains
none_is_empty [] h = refl
none_is_empty (x ∷ l) h = absurd (ground (arith, h x, ==-refl x))

-- If every provider that is registered has asked to be unregistered, then the next iteration of a
-- consumer raises nothing and tells it to stop, whatever happened before and without a kill.
pub stop-follows :
    {q : QueueConsumer}
    → Reach new_queue_consumer q
    → ((p : ℕ)
        → contains p q.providers ≡ true
        → (contains p q.pending_remove_providers || contains p q.released) ≡ true)
    → (t : QueueConsumer) × (on_iteration q ≡ returned t) × (t.should_stop ≡ true)
unfolding on_iteration
stop-follows {q = q} r all_asked =
    let i = Reach-Inv r in
    let (left, done, members) =
      cancel_each_lem q.pending_remove_providers q.consumers i.distinct i.waiting in
    elim (Bool-cases q.should_stop) [
      | inl told ↦ (cancelled left q, ground (arith, done), ground (arith, told))
      | inr running ↦
          let none_left : is_empty left ≡ true =
            none_is_empty left
              (λ p. ground (arith, members p, all_asked p, (Reach-Owned r).owner p running)) in
          (cancelled left q, ground (arith, done), ground (arith, none_left))
    ]
