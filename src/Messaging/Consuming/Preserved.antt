-- ===== src/Messaging/Consuming/Preserved.antt =====
-- The steps of a queue consumer (nameko/messaging.py) and its invariant.
use nameko.Prelude.{ℕ, ℕ_eq, ◌≡◌, Bool, true, false, arith, refl, subst, inl, inr}
use nameko.Prelude.Set.{contains, contains-add, contains-discard, add-Distinct}
use nameko.Action.{returned}
use nameko.Messaging.Consuming.{
  QueueConsumer, register_provider, unregister_provider, resume_unregister, on_iteration,
  get_consumers, on_consume_ready, kill, new_queue_consumer, Step, Reach, registers, connects,
  gets_ready, unregisters, iterates, wakes, kills, here, next,
}
use nameko.Messaging.Consuming.Shapes.{
  marked, asked, cancelled, woken, freed, unregister_provider-cases, resume_unregister-cases,
}
use nameko.Messaging.Consuming.Invariant.{Inv, contains-add_all, cancel_each_lem, is_empty_none}

register_provider-Inv :
    (p : ℕ) (q : QueueConsumer)
    → q.set_up ≡ false
    → q.should_stop ≡ false
    → Inv q
    → Inv (register_provider p q)
unfolding register_provider
register_provider-Inv p q early goes i = record {
  covered = λ r s h. absurd (ground (arith, early, s));
  waiting = i.waiting;
  distinct = i.distinct;
  prepared = i.prepared;
  stopping = λ r s h. absurd (ground (arith, goes, s));
}

get_consumers-Inv : (q : QueueConsumer) → Inv q → Inv (get_consumers q)
unfolding get_consumers
get_consumers-Inv q i = record {
  covered = λ r s h. ground (arith, h, contains-add_all r q.providers q.consumers);
  waiting = λ r h. ground (arith, i.waiting r h, contains-add_all r q.providers q.consumers);
  distinct = i.distinct;
  prepared = λ h. refl;
  stopping = i.stopping;
}

marked-Inv : (q : QueueConsumer) → Inv q → Inv (marked q)
marked-Inv q i = record {
  covered = i.covered;
  waiting = i.waiting;
  distinct = i.distinct;
  prepared = i.prepared;
  stopping = i.stopping;
}

asked-Inv :
    (p : ℕ) (q : QueueConsumer)
    → q.consumers_ready ≡ true
    → contains p q.providers ≡ true
    → contains p q.released ≡ false
    → Inv q
    → Inv (asked p q)
asked-Inv p q ready registered not_yet i = record {
  covered = i.covered;
  waiting = λ r h. ground (
    arith,
    h,
    i.waiting r,
    i.covered p (i.prepared ready) registered,
    not_yet,
    contains-add p r q.pending_remove_providers,
    ℕ_eq.equal_iff p r,
  );
  distinct = add-Distinct p q.pending_remove_providers i.distinct;
  prepared = i.prepared;
  stopping = i.stopping;
}

unregister_provider-Inv :
    (p : ℕ) (q t : QueueConsumer)
    → contains p q.providers ≡ true
    → contains p q.released ≡ false
    → unregister_provider p q ≡ returned t
    → Inv q
    → Inv t
unregister_provider-Inv p q t registered not_yet e i = elim (unregister_provider-cases p q t e) [
  | inl same ↦ subst Inv same (marked-Inv q i)
  | inr (ready, same) ↦ subst Inv same (asked-Inv p q ready registered not_yet i)
]

on_iteration-Inv :
    (q t : QueueConsumer) → q.set_up ≡ true → on_iteration q ≡ returned t → Inv q → Inv t
unfolding on_iteration contains
on_iteration-Inv q t up e i =
    let (left, done, members) =
      cancel_each_lem q.pending_remove_providers q.consumers i.distinct i.waiting in
    let same : cancelled left q ≡ t = ground (arith, done, e) in
    subst Inv same (record {
      covered = λ r s h. ground (
        arith,
        i.covered r s h,
        members r,
        contains-add_all r q.pending_remove_providers q.released,
      );
      waiting = λ r h. absurd (cc);
      distinct = tt;
      prepared = i.prepared;
      stopping = λ r s h. ground (
        arith,
        s,
        i.stopping r,
        h,
        i.covered r up h,
        members r,
        is_empty_none r left,
        contains-add_all r q.pending_remove_providers q.released,
      );
    })

-- What stands if a provider is removed, whether or not the last event is sent.
woken-Inv : (p : ℕ) (q : QueueConsumer) (sent : Bool) → Inv q → Inv (woken p sent q)
woken-Inv p q sent i = record {
  covered = λ r s h.
      ground (
        arith,
        i.covered r s,
        h,
        contains-discard p r q.providers,
        contains-discard p r q.released,
      );
  waiting = i.waiting;
  distinct = i.distinct;
  prepared = i.prepared;
  stopping = λ r s h.
      ground (
        arith,
        i.stopping r s,
        h,
        contains-discard p r q.providers,
        contains-discard p r q.released,
      );
}

freed-Inv : (p : ℕ) (q : QueueConsumer) → contains p q.providers ≡ false → Inv q → Inv (freed p q)
freed-Inv p q absent i = record {
  covered = λ r s h.
      ground
        (arith, i.covered r s h, h, absent, contains-discard p r q.released, ℕ_eq.equal_iff p r);
  waiting = i.waiting;
  distinct = i.distinct;
  prepared = i.prepared;
  stopping = λ r s h.
      ground
        (arith, i.stopping r s h, h, absent, contains-discard p r q.released, ℕ_eq.equal_iff p r);
}

resume_unregister-Inv :
    (p : ℕ) (q t : QueueConsumer) → resume_unregister p q ≡ returned t → Inv q → Inv t
resume_unregister-Inv p q t e i = elim (resume_unregister-cases p q t e) [
  | inl (absent, same) ↦ subst Inv same (freed-Inv p q absent i)
  | inr (sent, same) ↦ subst Inv same (woken-Inv p q sent i)
]

kill-Inv : (q : QueueConsumer) → Inv q → Inv (kill q)
unfolding kill contains
kill-Inv q i = record {
  covered = λ r s h. absurd (cc);
  waiting = λ r h. absurd (cc);
  distinct = tt;
  prepared = i.prepared;
  stopping = λ r s h. absurd (cc);
}

on_consume_ready-Inv : (q : QueueConsumer) → q.set_up ≡ true → Inv q → Inv (on_consume_ready q)
unfolding on_consume_ready
on_consume_ready-Inv q up i = record {
  covered = i.covered;
  waiting = i.waiting;
  distinct = i.distinct;
  prepared = λ h. up;
  stopping = i.stopping;
}

Step-Inv : {q t : QueueConsumer} → Step q t → Inv q → Inv t
Step-Inv (registers p early goes) i = register_provider-Inv p _ early goes i
Step-Inv (connects none_left) i = get_consumers-Inv _ i
Step-Inv (gets_ready up) i = on_consume_ready-Inv _ up i
Step-Inv (unregisters p t registered not_yet e) i =
    unregister_provider-Inv p _ t registered not_yet e i
Step-Inv (iterates t up e) i = on_iteration-Inv _ t up e i
Step-Inv (wakes p t released e) i = resume_unregister-Inv p _ t e i
Step-Inv kills i = kill-Inv _ i

pub Reach-Inv : {q : QueueConsumer} → Reach new_queue_consumer q → Inv q
unfolding contains
Reach-Inv here = record {
  covered = λ r s h. absurd (cc);
  waiting = λ r h. absurd (cc);
  distinct = tt;
  prepared = λ h. absurd (cc);
  stopping = λ r s h. absurd (cc);
}
Reach-Inv (next r s) = Step-Inv s (Reach-Inv r)
