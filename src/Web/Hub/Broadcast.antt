-- ===== src/Web/Hub/Broadcast.antt =====
-- Who gets what a service sends to a channel or to a socket (nameko/web/websocket.py).
use nameko.Prelude.{
  String, ◌≡◌, true, Option, none, some, List, [], ◌∷◌, ◌++◌, arith, refl, length, All, inl, inr,
  Option-cases, string_eq, ==-refl,
}
use mathlib.Core.List.{append-nil, append_assoc}
use nameko.Prelude.Dict.{get}
use nameko.Prelude.Set.{contains, Distinct}
use nameko.Action.{returned}
use nameko.Web.Hub.{SocketInfo, WebSocketServer, Sockets, members, send_each, broadcast, unicast}
use nameko.Web.Hub.Agreement.{hears, listens}
use nameko.Web.Hub.Runs.{Interests, Keeps, is_open}

module _ {W D : Type 0} (sockets : Sockets W D) (payload : String) where
  -- One message for each of these sockets that is open, in their order.
  abbrev pub message_to : Option (SocketInfo W D) → List (W × String)
  message_to none = []
  message_to (some info) = (info.socket, payload) ∷ []

  abbrev pub messages : List String → List (W × String)
  messages [] = []
  messages (id ∷ rest) = message_to (get id sockets) ++ messages rest

  abbrev AllUp : List String → Type 0
  AllUp ids = All (λ id. is_open (get id sockets) ≡ true) ids

  length-messages : (ids : List String) → AllUp ids → length (messages ids) ≡ length ids
  length-messages [] h = refl
  length-messages (id ∷ rest) h = ground (arith, h.0, length-messages rest h.1)

  all_up :
      (ids : List String)
      → ((i : String) → contains i ids ≡ true → is_open (get i sockets) ≡ true)
      → AllUp ids
  unfolding contains
  all_up [] h = tt
  all_up (id ∷ rest) h =
      (h id (ground (arith, ==-refl id)), all_up rest (λ i there. h i (ground (arith, there))))

  send_each_lem :
      {X : Type 0} (send_failure : W → String → Option X)
      → ((ws : W) → send_failure ws payload ≡ none)
      → (ids : List String) (log : List (W × String))
      → send_each send_failure ids payload sockets log ≡ (returned tt, log ++ messages ids)
  unfolding send_each
  send_each_lem send_failure works [] log = ground (arith, append-nil log)
  send_each_lem send_failure works (id ∷ rest) log = elim (Option-cases (get id sockets)) [
    | inl closed ↦ ground (arith, closed, send_each_lem send_failure works rest log)
    | inr (info, found) ↦ ground (
      arith,
      found,
      works info.socket,
      send_each_lem send_failure works rest (log ++ (info.socket, payload) ∷ []),
      append_assoc log ((info.socket, payload) ∷ []) (messages rest),
    )
  ]

hears_up :
    {W D : Type 0} (server : WebSocketServer W D) (m : Interests) (k : Keeps server m)
    (channel i : String)
    → contains i (members (get channel k.hub.subscriptions)) ≡ true
    → is_open (get i server.sockets) ≡ true
unfolding hears listens contains
hears_up server m k channel i h = elim (Option-cases (get i k.hub.connections)) [
  | inl absent ↦ ground (arith, absent, h, k.listening i channel, k.hearing i channel)
  | inr (con, found) ↦
      ground (arith, k.up i, k.connected i (λ absent. ground (arith, found, absent)))
]

-- Let sending not fail, and let the hub keep its promise. A broadcast sends the payload once to each
-- socket that is interested in the channel, and to no other: the sockets it sends to are distinct,
-- they are those with an interest, all of them are open, and each gets one message.
pub broadcast-reaches :
    {W D X : Type 0} (send_failure : W → String → Option X) (channel payload : String)
    (server : WebSocketServer W D) (m : Interests) (k : Keeps server m) (log : List (W × String))
    → ((ws : W) → send_failure ws payload ≡ none)
    → (ids : List String) × Distinct ids
      × ((i : String) → contains i ids ≡ m.interested i channel)
      × (length (messages server.sockets payload ids) ≡ length ids)
      × (broadcast send_failure channel payload server.sockets k.hub log
          ≡ (returned tt, log ++ messages server.sockets payload ids))
unfolding broadcast hears
broadcast-reaches send_failure channel payload server m k log works =
    let ids = members (get channel k.hub.subscriptions) in
    (
      ids,
      k.once channel,
      (λ i. k.hearing i channel),
      length-messages server.sockets payload ids
          (all_up server.sockets payload ids (hears_up server m k channel)),
      send_each_lem server.sockets payload send_failure works ids log,
    )

-- A unicast returns whether the socket is open, and sends one message if it is, and none if not.
pub unicast_lem :
    {W D X : Type 0} (send_failure : W → String → Option X) (id payload : String)
    (sockets : Sockets W D) (log : List (W × String))
    → ((ws : W) → send_failure ws payload ≡ none)
    → unicast send_failure id payload sockets log
      ≡ (returned (is_open (get id sockets)), log ++ messages sockets payload (id ∷ []))
unfolding unicast
unicast_lem send_failure id payload sockets log works = elim (Option-cases (get id sockets)) [
  | inl closed ↦ ground (arith, closed, append-nil log)
  | inr (info, found) ↦ ground (arith, found, works info.socket)
]
