-- ===== src/Web/Hub/Agreement.antt =====
-- The two views that a hub keeps of who listens to what (nameko/web/websocket.py).
use nameko.Prelude.{
  String, ◌≡◌, Bool, not, ◌&&◌, ◌||◌, Option, none, some, List, [], ◌∷◌, string_eq, ◌==◌, arith,
  refl, inl, inr, if◌then◌else◌, ◌≢◌, Option-cases, ◌∙◌,
}
use nameko.Prelude.Dict.{get, put, remove, get-put, get-remove}
use nameko.Prelude.Set.{contains, add, discard, add, contains-add, contains-discard}
use nameko.Action.{returned}
use nameko.Web.Hub.{
  Connection, WebSocketHub, members, Sockets, subscribe, unsubscribe, leave, drop_subscriber,
  drop_all, cleanup_websocket,
}

module _ {D : Type 0} where
  abbrev pub channels : Option (Connection D) → List String
  channels none = []
  channels (some con) = con.subscriptions

  -- What the connection of the socket says, and what the channel says.
  unfoldable pub listens : String → String → WebSocketHub D → Bool
  listens id channel hub = contains channel (channels (get id hub.connections))

  unfoldable pub hears : String → String → WebSocketHub D → Bool
  hears id channel hub = contains id (members (get channel hub.subscriptions))

  listens-leave :
      (a c i ch : String) (hub : WebSocketHub D)
      → listens i ch (leave a c hub) ≡ (listens i ch hub && not (a == i && c == ch))
  unfolding listens contains
  listens-leave a c i ch hub = elim (Option-cases (get a hub.connections)) [
    | inl absent ↦ ground (arith, absent, string_eq.equal_iff a i)
    | inr (con, found) ↦ ground (
      arith,
      found,
      get-put a i (record con { subscriptions = discard c con.subscriptions }) hub.connections,
      contains-discard c ch con.subscriptions,
      string_eq.equal_iff a i,
    )
  ]

  listens-drop_subscriber :
      (a c i ch : String) (hub : WebSocketHub D)
      → listens i ch (drop_subscriber a c hub) ≡ listens i ch hub
  unfolding listens
  listens-drop_subscriber a c i ch hub = ground arith

  hears-leave :
      (a c i ch : String) (hub : WebSocketHub D) → hears i ch (leave a c hub) ≡ hears i ch hub
  unfolding hears
  hears-leave a c i ch hub = ground arith

  hears-drop_subscriber :
      (a c i ch : String) (hub : WebSocketHub D)
      → hears i ch (drop_subscriber a c hub) ≡ (hears i ch hub && not (a == i && c == ch))
  unfolding hears contains
  hears-drop_subscriber a c i ch hub = elim (Option-cases (get c hub.subscriptions)) [
    | inl absent ↦ ground (arith, absent, string_eq.equal_iff c ch)
    | inr (subs, found) ↦ ground (
      arith,
      found,
      get-put c ch (discard a subs) hub.subscriptions,
      contains-discard a i subs,
      string_eq.equal_iff c ch,
    )
  ]

  listens-drop_all :
      (a i ch : String) (l : List String) (hub : WebSocketHub D)
      → listens i ch (drop_all a l hub) ≡ listens i ch hub
  unfolding drop_all
  listens-drop_all a i ch [] hub = refl
  listens-drop_all a i ch (c ∷ l) hub =
      listens-drop_all a i ch l (drop_subscriber a c hub) ∙ listens-drop_subscriber a c i ch hub

  hears-drop_all :
      (a i ch : String) (l : List String) (hub : WebSocketHub D)
      → hears i ch (drop_all a l hub) ≡ (hears i ch hub && not (a == i && contains ch l))
  unfolding drop_all contains
  hears-drop_all a i ch [] hub = ground arith
  hears-drop_all a i ch (c ∷ l) hub =
      ground (
        arith,
        hears-drop_all a i ch l (drop_subscriber a c hub),
        hears-drop_subscriber a c i ch hub,
      )

  -- What each operation does to the two views.
  pub listens-unsubscribe :
      (a c i ch : String) (hub : WebSocketHub D)
      → listens i ch (unsubscribe a c hub) ≡ (listens i ch hub && not (a == i && c == ch))
  unfolding unsubscribe
  listens-unsubscribe a c i ch hub =
      listens-drop_subscriber a c i ch (leave a c hub) ∙ listens-leave a c i ch hub

  pub hears-unsubscribe :
      (a c i ch : String) (hub : WebSocketHub D)
      → hears i ch (unsubscribe a c hub) ≡ (hears i ch hub && not (a == i && c == ch))
  unfolding unsubscribe
  hears-unsubscribe a c i ch hub =
      ground (arith, hears-drop_subscriber a c i ch (leave a c hub), hears-leave a c i ch hub)

  pub listens-cleanup_websocket :
      (a i ch : String) (hub : WebSocketHub D)
      → listens i ch (cleanup_websocket a hub) ≡ (listens i ch hub && not (a == i))
  unfolding cleanup_websocket listens contains
  listens-cleanup_websocket a i ch hub = elim (Option-cases (get a hub.connections)) [
    | inl absent ↦ ground (arith, absent, get-remove a i hub.connections, string_eq.equal_iff a i)
    | inr (con, found) ↦ ground (
      arith,
      found,
      listens-drop_all a i ch con.subscriptions
          (record hub { connections = remove a hub.connections }),
      get-remove a i hub.connections,
      string_eq.equal_iff a i,
    )
  ]

  pub hears-cleanup_websocket :
      (a i ch : String) (hub : WebSocketHub D)
      → hears i ch (cleanup_websocket a hub) ≡ (hears i ch hub && not (a == i && listens a ch hub))
  unfolding cleanup_websocket listens hears contains
  hears-cleanup_websocket a i ch hub = elim (Option-cases (get a hub.connections)) [
    | inl absent ↦ ground (arith, absent)
    | inr (con, found) ↦ ground (
      arith,
      found,
      hears-drop_all a i ch con.subscriptions
          (record hub { connections = remove a hub.connections }),
    )
  ]

module _ {W D : Type 0} (a c : String) (sockets : Sockets W D) (hub hub' : WebSocketHub D)
    (e : subscribe a c sockets hub ≡ returned hub') where
  -- A socket that subscribes is open or was connected before, and its connection is kept, or made.
  pub subscribe-connects :
      (con : Connection D) × (con.subscriptions ≡ channels (get a hub.connections))
      × ((get a hub.connections ≡ none) → get a sockets ≢ none)
      × ((i : String)
          → get i hub'.connections ≡ (
              if a == i
              then some (record con { subscriptions = add c con.subscriptions })
              else get i hub.connections))
      × (hub'.subscriptions ≡ put c (add a (members (get c hub.subscriptions))) hub.subscriptions)
  unfolding subscribe
  subscribe-connects = elim (Option-cases (get a hub.connections)) [
    | inr (con, found) ↦ (
      con,
      ground (arith, found),
      (λ absent. absurd (ground (arith, found, absent))),
      (λ i. ground (
        arith,
        found,
        e,
        get-put a i (record con { subscriptions = add c con.subscriptions }) hub.connections,
      )),
      ground (arith, found, e),
    )
    | inl absent ↦ elim (Option-cases (get a sockets)) [
      | inl closed ↦ absurd (ground (arith, absent, closed, e))
      | inr (info, found) ↦
          let con : Connection D = record {
            socket_id = a;
            context_data = info.context;
            subscriptions = [];
          } in
          (
            con,
            ground (arith, absent),
            (λ _ closed. ground (arith, found, closed)),
            (λ i. ground (
              arith,
              absent,
              found,
              e,
              get-put a i con hub.connections,
              get-put a i (record con { subscriptions = add c [] }) (put a con hub.connections),
            )),
            ground (arith, absent, found, e),
          )
    ]
  ]

  pub listens-subscribe :
      (i ch : String) → listens i ch hub' ≡ (a == i && c == ch || listens i ch hub)
  unfolding listens contains
  listens-subscribe i ch =
      let (con, same, is_open, conns, subs) = subscribe-connects in
      ground (arith, same, conns i, contains-add c ch con.subscriptions, string_eq.equal_iff a i)

  pub hears-subscribe : (i ch : String) → hears i ch hub' ≡ (a == i && c == ch || hears i ch hub)
  unfolding hears contains
  hears-subscribe i ch =
      let (con, same, is_open, conns, subs) = subscribe-connects in
      ground (
        arith,
        subs,
        get-put c ch (add a (members (get c hub.subscriptions))) hub.subscriptions,
        contains-add a i (members (get c hub.subscriptions)),
        string_eq.equal_iff c ch,
      )
