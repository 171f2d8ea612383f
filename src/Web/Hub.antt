-- ===== src/Web/Hub.antt =====
-- `WebSocketHub`, `WebSocketHubProvider` and the sockets of `WebSocketServer` in
-- nameko/web/websocket.py.
pub mod Agreement
pub mod Broadcast
pub mod Promise
pub mod Runs
pub mod Subscribers
use nameko.Prelude.{
  String, Bool, true, false, Option, none, some, List, [], ◌∷◌, map, string_eq, if◌then◌else◌,
}
use nameko.Prelude.Dict.{Dict, get, put, remove}
use nameko.Prelude.Set.{add, discard}
use nameko.Action.{Result, returned, raised, Act, pure, ◌>>=◌, ◌>>◌, attempt}

-- A socket is `W`, and the context data made from the headers is `D`.
pub record SocketInfo (W D : Type 0) : Type 0 where
  pub socket : W
  pub context : D

pub record Connection (D : Type 0) : Type 0 where
  pub socket_id : String
  pub context_data : D
  pub subscriptions : List String

-- `connections` by socket id, and `subscriptions`: the socket ids by channel.
pub record WebSocketHub (D : Type 0) : Type 0 where
  pub connections : Dict String (Connection D)
  pub subscriptions : Dict String (List String)

pub record ConnectionNotFound : Type 0 where
  pub socket_id : String

-- A set under a key, or the empty set if the key is missing.
abbrev pub members : Option (List String) → List String
members none = []
members (some s) = s

abbrev pub Sockets : Type 0 → Type 0 → Type 0
Sockets W D = Dict String (SocketInfo W D)

module _ {D : Type 0} where
  abbrev pub new_hub : WebSocketHub D
  new_hub = record { connections = []; subscriptions = [] }

  abbrev join :
      String
      → String
      → Result ConnectionNotFound (Connection D × WebSocketHub D)
      → Result ConnectionNotFound (WebSocketHub D)
  join id channel (raised e) = raised e
  join id channel (returned (con, hub)) =
      let joined = record con { subscriptions = add channel con.subscriptions } in
      let subscribers = add id (members (get channel hub.subscriptions)) in
      returned (record {
        connections = put id joined hub.connections;
        subscriptions = put channel subscribers hub.subscriptions;
      })

module _ {W D : Type 0} where
  -- `_get_connection`: `create` makes a connection for a socket that has none yet.
  abbrev make_connection :
      String
      → Option (SocketInfo W D)
      → WebSocketHub D
      → Result ConnectionNotFound (Connection D × WebSocketHub D)
  make_connection id none hub = raised (record { socket_id = id })
  make_connection id (some info) hub =
      let con : Connection D = record {
        socket_id = id;
        context_data = info.context;
        subscriptions = [];
      } in
      returned (con, record hub { connections = put id con hub.connections })

  abbrev pub get_or_create :
      String
      → Sockets W D
      → WebSocketHub D
      → Result ConnectionNotFound (Connection D × WebSocketHub D)
  get_or_create id sockets hub = elim (get id hub.connections) [
    | some con ↦ returned (con, hub)
    | none ↦ make_connection id (get id sockets) hub
  ]

  unfoldable pub subscribe :
      String → String → Sockets W D → WebSocketHub D → Result ConnectionNotFound (WebSocketHub D)
  subscribe id channel sockets hub = join id channel (get_or_create id sockets hub)

module _ {D : Type 0} where
  -- `_get_connection(socket_id, create=False)`
  abbrev pub find_connection : String → WebSocketHub D → Option (Connection D)
  find_connection id hub = get id hub.connections

  -- `con.subscriptions.discard(channel)` on the connection of a socket, if there is one
  abbrev leave : String → String → WebSocketHub D → WebSocketHub D
  leave id channel hub = elim (find_connection id hub) [
    | none ↦ hub
    | some con ↦ record hub {
      connections =
          put id (record con { subscriptions = discard channel con.subscriptions }) hub.connections;
    }
  ]

  -- `self.subscriptions[channel].discard(socket_id)`, if the channel is there
  abbrev pub drop_subscriber : String → String → WebSocketHub D → WebSocketHub D
  drop_subscriber id channel hub = elim (get channel hub.subscriptions) [
    | none ↦ hub
    | some subs ↦ record hub { subscriptions = put channel (discard id subs) hub.subscriptions }
  ]

  unfoldable pub unsubscribe : String → String → WebSocketHub D → WebSocketHub D
  unsubscribe id channel hub = drop_subscriber id channel (leave id channel hub)

  -- The loop of `cleanup_websocket`. An empty set is left as it is.
  unfoldable pub drop_all : String → List String → WebSocketHub D → WebSocketHub D
  drop_all id [] hub = hub
  drop_all id (channel ∷ rest) hub = drop_all id rest (drop_subscriber id channel hub)

  unfoldable pub cleanup_websocket : String → WebSocketHub D → WebSocketHub D
  unfolding drop_all
  cleanup_websocket id hub =
      let popped = record hub { connections = remove id hub.connections } in
      elim (get id hub.connections) [
        | none ↦ popped
        | some con ↦ drop_all id con.subscriptions popped
      ]

-- `WebSocketServer` with the hubs of its providers.
pub record WebSocketServer (W D : Type 0) : Type 0 where
  pub sockets : Dict String (SocketInfo W D)
  pub hubs : List (WebSocketHub D)

module _ {W D : Type 0} where
  -- `id` is the uuid that is drawn.
  unfoldable pub add_websocket : String → W → D → WebSocketServer W D → WebSocketServer W D
  add_websocket id ws context server = record server {
    sockets = put id (record { socket = ws; context = context }) server.sockets;
  }

  unfoldable pub remove_socket : String → WebSocketServer W D → WebSocketServer W D
  remove_socket id server = record {
    sockets = remove id server.sockets;
    hubs = map (cleanup_websocket id) server.hubs;
  }

-- Sending: what was sent to which socket; a send may raise.
module _ {W D X : Type 0} (send_failure : W → String → Option X) where
  abbrev send_if_open : Option (SocketInfo W D) → String → Act X (W × String) Bool
  send_if_open none payload = pure false
  send_if_open (some info) payload = do
    attempt (info.socket, payload) (send_failure info.socket payload)
    pure true

  unfoldable pub send_each : List String → String → Sockets W D → Act X (W × String) Unit
  send_each [] payload sockets = pure tt
  send_each (id ∷ rest) payload sockets = do
    send_if_open (get id sockets) payload
    send_each rest payload sockets

  -- `broadcast` and `unicast` of a payload that `serialize_event` made
  unfoldable pub broadcast :
      String → String → Sockets W D → WebSocketHub D → Act X (W × String) Unit
  broadcast channel payload sockets hub =
      send_each (members (get channel hub.subscriptions)) payload sockets

  unfoldable pub unicast : String → String → Sockets W D → Act X (W × String) Bool
  unicast id payload sockets = send_if_open (get id sockets) payload
