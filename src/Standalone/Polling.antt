-- ===== src/Standalone/Polling.antt =====
-- What a client that polls gets (nameko/standalone/rpc.py), whatever else arrives before.
use nameko.Prelude.{
  String, ◌≡◌, Bool, true, false, not, ◌&&◌, Option, none, some, List, [], ◌∷◌, ◌++◌, string_eq,
  ◌==◌, ==-refl, if◌then◌else◌, arith,
}
use nameko.Prelude.Dict.{get, get-put, get-remove}
use nameko.Prelude.Set.{contains}
use nameko.Action.{returned}
use nameko.Standalone.{
  Drained, got, timed_out, cut_off, lost, break_in, Poller, take, on_message, get_message, wait,
}

module _ {B : Type 0} where
  -- Replies to other calls, and connections that are made again.
  abbrev pub is_noise : String → List (Drained B) → Bool
  is_noise id [] = true
  is_noise id (got key body ∷ rest) = not (key == id) && is_noise id rest
  is_noise id (cut_off ∷ rest) = is_noise id rest
  is_noise id (timed_out ∷ rest) = false
  is_noise id (lost ∷ rest) = false
  is_noise id (break_in ∷ rest) = false

  -- The last reply under an id, after an earlier one.
  abbrev pub last_reply : String → List (Drained B) → Option B → Option B
  last_reply id [] earlier = earlier
  last_reply id (got key body ∷ rest) earlier =
      last_reply id rest (if key == id then some body else earlier)
  last_reply id (timed_out ∷ rest) earlier = last_reply id rest earlier
  last_reply id (cut_off ∷ rest) earlier = last_reply id rest earlier
  last_reply id (lost ∷ rest) earlier = last_reply id rest earlier
  last_reply id (break_in ∷ rest) earlier = last_reply id rest earlier

  take_lem :
      (id key : String) (body : B) (p : Poller B)
      → contains id p.reply_events ≡ true
      → (get id (take id body p).sent ≡ some body)
        × ((take id body p).failed ≡ p.failed)
        × (get key (take id body p).replies ≡ (if id == key then none else get key p.replies))
  unfolding take
  take_lem id key body p asked = (
    ground (arith, asked, get-put id id body p.sent, ==-refl id),
    ground (arith, asked),
    ground (arith, asked, get-remove id key p.replies),
  )

  already_there :
      (id : String) (body : B) (rest : List (Drained B)) (p : Poller B)
      → get id p.replies ≡ some body
      → get_message id rest p ≡ some (returned (take id body p), rest)
  unfolding get_message
  already_there id body [] p e = ground (arith, e)
  already_there id body (d ∷ rest) p e = ground (arith, e)

  polled :
      (id key : String) (body : B) (before rest : List (Drained B)) (p : Poller B)
      → get id p.replies ≡ none
      → contains id p.reply_events ≡ true
      → is_noise id before ≡ true
      → (q : Poller B) × (get_message id (before ++ got id body ∷ rest) p ≡ some (returned q, rest))
        × (get id q.sent ≡ some body)
        × (q.failed ≡ p.failed)
        × (get key q.replies
            ≡ (if id == key then none else last_reply key before (get key p.replies)))
  unfolding get_message on_message
  polled id key body [] rest p fresh asked noise =
      let p' = on_message id body p in
      let there : get id p'.replies ≡ some body =
        ground (arith, get-put id id body p.replies, ==-refl id) in
      let step = already_there id body rest p' there in
      let (sends, fails, keeps) = take_lem id key body p' asked in
      (
        take id body p',
        ground (arith, fresh, step),
        sends,
        fails,
        ground (arith, keeps, get-put id key body p.replies),
      )
  polled id key body (got k other ∷ before) rest p fresh asked noise =
      let fresh' : get id (on_message k other p).replies ≡ none =
        ground (arith, fresh, noise, get-put k id other p.replies) in
      let (q, step, sends, fails, keeps) =
        polled id key body before rest (on_message k other p) fresh' asked
          (ground (arith, noise)) in
      (
        q,
        ground (arith, fresh, step),
        sends,
        fails,
        ground (arith, keeps, get-put k key other p.replies),
      )
  polled id key body (cut_off ∷ before) rest p fresh asked noise =
      let (q, step, sends, fails, keeps) = polled id key body before rest p fresh asked noise in
      (q, ground (arith, fresh, step), sends, fails, keeps)
  polled id key body (timed_out ∷ before) rest p fresh asked noise = absurd (cc)
  polled id key body (lost ∷ before) rest p fresh asked noise = absurd (cc)
  polled id key body (break_in ∷ before) rest p fresh asked noise = absurd (cc)

  -- Let a consumer be started and connected, and the event of a call be unsent. If the reply to the
  -- call comes after replies to other calls and connections that are lost and made again, `wait`
  -- returns it; what comes later is not read; and under each other id the last reply that came is kept.
  pub wait-returns :
      (id key : String) (body : B) (before rest : List (Drained B)) (p : Poller B)
      → p.stopped ≡ false
      → p.connected ≡ true
      → get id p.failed ≡ none
      → get id p.replies ≡ none
      → contains id p.reply_events ≡ true
      → is_noise id before ≡ true
      → (wait id (before ++ got id body ∷ rest) p ≡ some (returned body))
        × ((q : Poller B) × (get_message id (before ++ got id body ∷ rest) p
              ≡ some (returned q, rest))
            × (get key q.replies
                ≡ (if id == key then none else last_reply key before (get key p.replies))))
  unfolding wait
  wait-returns id key body before rest p started connected unsent fresh asked noise =
      let (q, step, sends, fails, keeps) = polled id key body before rest p fresh asked noise in
      (ground (arith, started, connected, unsent, step, sends, fails), (q, step, keeps))
