-- ===== src/Web/Hub/Subscribers.antt =====
-- What the operations of a hub (nameko/web/websocket.py) do to its dicts: the connections that are
-- left, and the sets of subscribers.
use nameko.Prelude.{
  String, ◌≡◌, ◌≢◌, none, List, [], ◌∷◌, string_eq, ◌==◌, arith, refl, if◌then◌else◌, inl, inr,
  Bool-cases, Option-cases, ◌∙◌,
}
use nameko.Prelude.Dict.{get, put, remove, get-put, get-remove}
use nameko.Prelude.Set.{add, discard, Distinct, add-Distinct, discard-Distinct}
use nameko.Action.{returned}
use nameko.Web.Hub.{
  WebSocketHub, members, Sockets, subscribe, unsubscribe, leave, drop_subscriber, drop_all,
  cleanup_websocket,
}
use nameko.Web.Hub.Agreement.{subscribe-connects}

module _ {D : Type 0} where
  connections-drop_subscriber :
      (a c i : String) (hub : WebSocketHub D)
      → get i (drop_subscriber a c hub).connections ≡ get i hub.connections
  connections-drop_subscriber a c i hub = ground arith

  connections-drop_all :
      (a i : String) (l : List String) (hub : WebSocketHub D)
      → get i (drop_all a l hub).connections ≡ get i hub.connections
  unfolding drop_all
  connections-drop_all a i [] hub = refl
  connections-drop_all a i (c ∷ l) hub =
      connections-drop_all a i l (drop_subscriber a c hub) ∙ connections-drop_subscriber a c i hub

  pub connections-cleanup_websocket :
      (a i : String) (hub : WebSocketHub D)
      → get i (cleanup_websocket a hub).connections
        ≡ (if a == i then none else get i hub.connections)
  unfolding cleanup_websocket
  connections-cleanup_websocket a i hub = elim (Option-cases (get a hub.connections)) [
    | inl absent ↦ ground (arith, absent, get-remove a i hub.connections)
    | inr (con, found) ↦ ground (
      arith,
      found,
      get-remove a i hub.connections,
      connections-drop_all a i con.subscriptions
          (record hub { connections = remove a hub.connections }),
    )
  ]

  connections-leave :
      (a c i : String) (hub : WebSocketHub D)
      → get i (leave a c hub).connections ≢ none
      → get i hub.connections ≢ none
  connections-leave a c i hub = elim (Option-cases (get a hub.connections)) [
    | inl absent ↦ ground (arith, absent)
    | inr (con, found) ↦ ground (
      arith,
      found,
      get-put a i (record con { subscriptions = discard c con.subscriptions }) hub.connections,
      string_eq.equal_iff a i,
    )
  ]

  pub connections-unsubscribe :
      (a c i : String) (hub : WebSocketHub D)
      → get i (unsubscribe a c hub).connections ≢ none
      → get i hub.connections ≢ none
  unfolding unsubscribe
  connections-unsubscribe a c i hub h =
      connections-leave a c i hub
        (ground (arith, h, connections-drop_subscriber a c i (leave a c hub)))

  abbrev pub OnceEach : WebSocketHub D → Type 0
  OnceEach hub = (ch : String) → Distinct (members (get ch hub.subscriptions))

  put-OnceEach :
      (c : String) (s : List String) (hub : WebSocketHub D)
      → Distinct s
      → OnceEach hub
      → (ch : String) → Distinct (members (get ch (put c s hub.subscriptions)))
  put-OnceEach c s hub d h ch = elim (Bool-cases (c == ch)) [
    | inl same ↦ rw (get-put, same) d
    | inr other ↦ rw (get-put, other) (h ch)
  ]

  drop_subscriber-OnceEach :
      (a c : String) (hub : WebSocketHub D) → OnceEach hub → OnceEach (drop_subscriber a c hub)
  drop_subscriber-OnceEach a c hub h = elim (Option-cases (get c hub.subscriptions)) [
    | inl absent ↦ rw (absent, drop_subscriber) h
    | inr (subs, found) ↦
        rw (found, drop_subscriber)
          (put-OnceEach c (discard a subs) hub (discard-Distinct a subs (rw found at (h c))) h)
  ]

  drop_all-OnceEach :
      (a : String) (l : List String) (hub : WebSocketHub D)
      → OnceEach hub
      → OnceEach (drop_all a l hub)
  unfolding drop_all
  drop_all-OnceEach a [] hub h = h
  drop_all-OnceEach a (c ∷ l) hub h =
      drop_all-OnceEach a l (drop_subscriber a c hub) (drop_subscriber-OnceEach a c hub h)

  pub cleanup_websocket-OnceEach :
      (a : String) (hub : WebSocketHub D) → OnceEach hub → OnceEach (cleanup_websocket a hub)
  unfolding cleanup_websocket
  cleanup_websocket-OnceEach a hub h = elim (Option-cases (get a hub.connections)) [
    | inl absent ↦ rw (absent, cleanup_websocket) h
    | inr (con, found) ↦ rw (found, cleanup_websocket) (drop_all-OnceEach a con.subscriptions _ h)
  ]

  leave-OnceEach : (a c : String) (hub : WebSocketHub D) → OnceEach hub → OnceEach (leave a c hub)
  leave-OnceEach a c hub h = elim (Option-cases (get a hub.connections)) [
    | inl absent ↦ rw (absent, leave) h
    | inr (con, found) ↦ rw (found, leave) h
  ]

  pub unsubscribe-OnceEach :
      (a c : String) (hub : WebSocketHub D) → OnceEach hub → OnceEach (unsubscribe a c hub)
  unfolding unsubscribe
  unsubscribe-OnceEach a c hub h =
      drop_subscriber-OnceEach a c (leave a c hub) (leave-OnceEach a c hub h)

pub subscribe-OnceEach :
    {W D : Type 0} (a c : String) (sockets : Sockets W D) (hub hub' : WebSocketHub D)
    → subscribe a c sockets hub ≡ returned hub'
    → OnceEach hub
    → OnceEach hub'
subscribe-OnceEach a c sockets hub hub' e h =
    let (con, same, is_open, conns, subs) = subscribe-connects a c sockets hub hub' e in
    λ ch. rw subs (
      put-OnceEach c (add a (members (get c hub.subscriptions))) hub
        (add-Distinct a (members (get c hub.subscriptions)) (h c)) h ch)
