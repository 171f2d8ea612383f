-- ===== src/Messaging/Consuming/Shapes.antt =====
-- What the operations of a queue consumer (nameko/messaging.py) make of it when they return.
use nameko.Prelude.{
  ℕ, ℕ_eq, ◌≡◌, ◌⊎◌, Bool, true, false, List, [], if◌then◌else◌, arith, inl, inr, Bool-cases,
}
use nameko.Prelude.Set.{contains, add, discard}
use nameko.Action.{returned}
use nameko.Messaging.Consuming.{
  QueueConsumer, unregister_provider, resume_unregister, remove_provider, add_all, is_empty,
}

abbrev pub marked : QueueConsumer → QueueConsumer
marked q = record q { last_provider_unregistered = true }

abbrev pub asked : ℕ → QueueConsumer → QueueConsumer
asked p q = record q { pending_remove_providers = add p q.pending_remove_providers }

abbrev pub cancelled : List ℕ → QueueConsumer → QueueConsumer
cancelled left q = record q {
  consumers = left;
  pending_remove_providers = [];
  released = add_all q.pending_remove_providers q.released;
  should_stop = if is_empty left then true else q.should_stop;
}

abbrev pub woken : ℕ → Bool → QueueConsumer → QueueConsumer
woken p sent q = record q {
  released = discard p q.released;
  providers = discard p q.providers;
  last_provider_unregistered = sent;
}

abbrev pub freed : ℕ → QueueConsumer → QueueConsumer
freed p q = record q { released = discard p q.released }

pub unregister_provider-cases :
    (p : ℕ) (q t : QueueConsumer)
    → unregister_provider p q ≡ returned t
    → (marked q ≡ t) ⊎ ((q.consumers_ready ≡ true) × (asked p q ≡ t))
unfolding unregister_provider
unregister_provider-cases p q t e = elim (Bool-cases q.consumers_ready) [
  | inl ready ↦ inr (ready, ground (arith, ready, e))
  | inr early ↦ elim (Bool-cases q.last_provider_unregistered) [
    | inl twice ↦ absurd (ground (arith, early, twice, e))
    | inr once ↦ inl (ground (arith, early, once, e))
  ]
]

pub resume_unregister-cases :
    (p : ℕ) (q t : QueueConsumer)
    → resume_unregister p q ≡ returned t
    → ((contains p q.providers ≡ false) × (freed p q ≡ t)) ⊎ ((sent : Bool) × (woken p sent q ≡ t))
unfolding resume_unregister remove_provider
resume_unregister-cases p q t e = elim (Bool-cases (contains p q.providers)) [
  | inr absent ↦ inl (absent, ground (arith, absent, e))
  | inl there ↦ elim (Bool-cases (is_empty (discard p q.providers))) [
    | inr others ↦ inr (q.last_provider_unregistered, ground (arith, there, others, e))
    | inl last ↦ elim (Bool-cases q.last_provider_unregistered) [
      | inl twice ↦ absurd (ground (arith, there, last, twice, e))
      | inr once ↦ inr (true, ground (arith, there, last, once, e))
    ]
  ]
]
