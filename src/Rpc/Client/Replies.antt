-- ===== src/Rpc/Client/Replies.antt =====
-- Which reply a call gets (`ReplyListener` of nameko/rpc.py), whatever else arrives.
use nameko.Prelude.{
  String, ◌≡◌, Bool, true, false, Option, none, some, List, [], ◌∷◌, string_eq, ◌==◌, if◌then◌else◌,
  arith, inl, inr, Bool-cases, Option-cases, ==-refl,
}
use nameko.Prelude.Dict.{get, get-put, get-remove}
use nameko.Prelude.Set.{contains, contains-add, contains-discard}
use nameko.Messaging.Delivery.{Message, Effect}
use nameko.Rpc.Client.{ReplyBody, ReplyListener, get_reply_event, handle_message}

pub data Event (V R : Type 0) : Type 0 where
  calls : String → Event V R
  arrives : Message V → ReplyBody R → Event V R

abbrev is_for : String → Option String → Bool
is_for id none = false
is_for id (some other) = other == id

-- A call whose event is still in the dict, and one that has its reply.
module _ {R : Type 0} (id : String) where
  record IsPending (listener : ReplyListener R) : Type 0 where
    waits : contains id listener.reply_events ≡ true
    unsent : get id listener.sent ≡ none

  record IsDone (body : ReplyBody R) (listener : ReplyListener R) : Type 0 where
    popped : contains id listener.reply_events ≡ false
    holds : get id listener.sent ≡ some body

  get_reply_event-IsDone :
      (body : ReplyBody R) (other : String) (listener : ReplyListener R)
      → (other == id) ≡ false
      → IsDone body listener
      → IsDone body (get_reply_event other listener)
  unfolding get_reply_event
  get_reply_event-IsDone body other listener fresh d = record {
    popped = ground (arith, fresh, d.popped, contains-add other id listener.reply_events);
    holds = ground (arith, fresh, d.holds, get-remove other id listener.sent);
  }

  get_reply_event-IsPending :
      (other : String) (listener : ReplyListener R)
      → (other == id) ≡ false
      → IsPending listener
      → IsPending (get_reply_event other listener)
  unfolding get_reply_event
  get_reply_event-IsPending other listener fresh w = record {
    waits = ground (arith, fresh, w.waits, contains-add other id listener.reply_events);
    unsent = ground (arith, fresh, w.unsent, get-remove other id listener.sent);
  }

module _ {V R : Type 0} where
  abbrev pub happen :
      Event V R → ReplyListener R × List (Effect R) → ReplyListener R × List (Effect R)
  happen (calls id) (listener, log) = (get_reply_event id listener, log)
  happen (arrives message body) state = handle_message body message state

  abbrev pub happen_all :
      List (Event V R) → ReplyListener R × List (Effect R) → ReplyListener R × List (Effect R)
  happen_all [] state = state
  happen_all (event ∷ rest) state = happen_all rest (happen event state)

  -- The first body that arrives under a correlation id.
  abbrev pub first_answer : String → List (Event V R) → Option (ReplyBody R)
  first_answer id [] = none
  first_answer id (calls _ ∷ rest) = first_answer id rest
  first_answer id (arrives message body ∷ rest) =
      let later = first_answer id rest in
      if is_for id message.correlation_id then some body else later

  -- The uuid of a call is not drawn again.
  abbrev pub Fresh : String → List (Event V R) → Type 0
  Fresh id [] = Unit
  Fresh id (calls other ∷ rest) = ((other == id) ≡ false) × Fresh id rest
  Fresh id (arrives _ _ ∷ rest) = Fresh id rest

module _ {V R : Type 0} (id : String) where
  handle_message-IsDone :
      (body other : ReplyBody R) (message : Message V) (listener : ReplyListener R)
      (log : List (Effect R))
      → IsDone id body listener
      → IsDone id body (handle_message other message (listener, log)).0
  unfolding handle_message
  handle_message-IsDone body other message listener log d =
      elim (Option-cases message.correlation_id) [
        | inl anonymous ↦ record {
          popped = ground (arith, anonymous, d.popped);
          holds = ground (arith, anonymous, d.holds);
        }
        | inr (key, named) ↦ record {
          popped = ground (arith, named, d.popped, contains-discard key id listener.reply_events);
          holds = ground (
            arith,
            named,
            d.popped,
            d.holds,
            get-put key id other listener.sent,
            string_eq.equal_iff key id,
          );
        }
      ]

  handle_message-answers :
      (body : ReplyBody R) (message : Message V) (listener : ReplyListener R)
      (log : List (Effect R))
      → is_for id message.correlation_id ≡ true
      → IsPending id listener
      → IsDone id body (handle_message body message (listener, log)).0
  unfolding handle_message
  handle_message-answers body message listener log mine w =
      elim (Option-cases message.correlation_id) [
        | inl anonymous ↦ absurd (ground (arith, anonymous, mine))
        | inr (key, named) ↦ record {
          popped = ground (
            arith,
            named,
            mine,
            w.waits,
            string_eq.equal_iff key id,
            contains-discard key id listener.reply_events,
          );
          holds = ground (
            arith,
            named,
            mine,
            w.waits,
            get-put key id body listener.sent,
            string_eq.equal_iff key id,
          );
        }
      ]

  handle_message-IsPending :
      (body : ReplyBody R) (message : Message V) (listener : ReplyListener R)
      (log : List (Effect R))
      → is_for id message.correlation_id ≡ false
      → IsPending id listener
      → IsPending id (handle_message body message (listener, log)).0
  unfolding handle_message
  handle_message-IsPending body message listener log others w =
      elim (Option-cases message.correlation_id) [
        | inl anonymous ↦ record {
          waits = ground (arith, anonymous, w.waits);
          unsent = ground (arith, anonymous, w.unsent);
        }
        | inr (key, named) ↦ record {
          waits =
              ground (arith, named, others, w.waits, contains-discard key id listener.reply_events);
          unsent = ground (arith, named, others, w.unsent, get-put key id body listener.sent);
        }
      ]

  done_stays :
      (body : ReplyBody R) (events : List (Event V R)) (listener : ReplyListener R)
      (log : List (Effect R))
      → Fresh id events
      → IsDone id body listener
      → get id (happen_all events (listener, log)).0.sent ≡ some body
  done_stays body [] listener log fresh d = d.holds
  done_stays body (calls other ∷ rest) listener log fresh d =
      done_stays body rest (get_reply_event other listener) log fresh.1
        (get_reply_event-IsDone id body other listener fresh.0 d)
  done_stays body (arrives message other ∷ rest) listener log fresh d =
      let next = handle_message other message (listener, log) in
      done_stays body rest next.0 next.1 fresh
        (handle_message-IsDone body other message listener log d)

  pending_answered :
      (events : List (Event V R)) (listener : ReplyListener R) (log : List (Effect R))
      → Fresh id events
      → IsPending id listener
      → get id (happen_all events (listener, log)).0.sent ≡ first_answer id events
  pending_answered [] listener log fresh w = w.unsent
  pending_answered (calls other ∷ rest) listener log fresh w =
      pending_answered rest (get_reply_event other listener) log fresh.1
        (get_reply_event-IsPending id other listener fresh.0 w)
  pending_answered (arrives message body ∷ rest) listener log fresh w =
      let next = handle_message body message (listener, log) in
      elim (Bool-cases (is_for id message.correlation_id)) [
        | inl mine ↦ rw mine (
            done_stays body rest next.0 next.1 fresh
              (handle_message-answers body message listener log mine w))
        | inr others ↦ rw others (
            pending_answered rest next.0 next.1 fresh
              (handle_message-IsPending body message listener log others w))
      ]

  -- If the uuid of a call is not drawn again, the event of the call holds the first body that arrives
  -- under its correlation id, or nothing if none does: whatever other calls are made, and whatever
  -- else arrives, in whatever order.
  pub get_reply_event-answered :
      (events : List (Event V R)) (listener : ReplyListener R) (log : List (Effect R))
      → Fresh id events
      → get id (happen_all events (get_reply_event id listener, log)).0.sent
        ≡ first_answer id events
  unfolding get_reply_event
  get_reply_event-answered events listener log fresh =
      pending_answered events (get_reply_event id listener) log fresh (record {
        waits = ground (arith, contains-add id id listener.reply_events, ==-refl id);
        unsent = ground (arith, get-remove id id listener.sent, ==-refl id);
      })
