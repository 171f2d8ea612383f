-- ===== src/Web/Hub/Runs.antt =====
-- What sockets do over their lives, on the hub of a server (nameko/web/websocket.py) and on a plain
-- relation between sockets and channels.
use nameko.Prelude.{
  String, ◌≡◌, ◌≢◌, Bool, true, false, not, ◌&&◌, ◌||◌, Option, none, some, List, [], ◌∷◌,
  string_eq, ◌==◌,
}
use nameko.Prelude.Dict.{get}
use nameko.Action.{Result, returned, raised}
use nameko.Web.Hub.{
  WebSocketHub, WebSocketServer, ConnectionNotFound, SocketInfo, new_hub, Sockets, subscribe,
  unsubscribe, add_websocket, remove_socket,
}
use nameko.Web.Hub.Subscribers.{OnceEach}
use nameko.Web.Hub.Agreement.{listens, hears}

pub data Op (W D : Type 0) : Type 0 where
  opens : String → W → D → Op W D
  closes : String → Op W D
  joins leaves : String → String → Op W D

module _ {D : Type 0} where
  -- A subscription that raises leaves the hub as it is.
  abbrev kept : WebSocketHub D → Result ConnectionNotFound (WebSocketHub D) → WebSocketHub D
  kept hub (returned hub') = hub'
  kept hub (raised _) = hub

module _ {W D : Type 0} where
  abbrev pub is_open : Option (SocketInfo W D) → Bool
  is_open none = false
  is_open (some _) = true

  abbrev pub on_hub :
      (Sockets W D → WebSocketHub D → WebSocketHub D) → WebSocketServer W D → WebSocketServer W D
  on_hub f server = elim server.hubs [
    | [] ↦ server
    | hub ∷ rest ↦ record server { hubs = f server.sockets hub ∷ rest }
  ]

  -- What is done, on the server; a service works on its first hub.
  abbrev pub perform : Op W D → WebSocketServer W D → WebSocketServer W D
  perform (opens id ws context) server = add_websocket id ws context server
  perform (closes id) server = remove_socket id server
  perform (joins id channel) server =
      on_hub (λ sockets hub. kept hub (subscribe id channel sockets hub)) server
  perform (leaves id channel) server = on_hub (λ _ hub. unsubscribe id channel hub) server

-- What a hub promises: which sockets are open, and which of them are interested in which channel.
pub record Interests : Type 0 where
  pub is_up : String → Bool
  pub interested : String → String → Bool

abbrev pub no_interests : Interests
no_interests = record { is_up = λ _. false; interested = λ _ _. false }

module _ {W D : Type 0} where
  abbrev pub promise : Op W D → Interests → Interests
  promise (opens id ws context) m = record m { is_up = λ i. id == i || m.is_up i }
  promise (closes id) m = record {
    is_up = λ i. m.is_up i && not (id == i);
    interested = λ i ch. m.interested i ch && not (id == i);
  }
  promise (joins id channel) m = record m {
    interested = λ i ch. m.is_up id && (id == i && channel == ch) || m.interested i ch;
  }
  promise (leaves id channel) m = record m {
    interested = λ i ch. m.interested i ch && not (id == i && channel == ch);
  }

  -- A server keeps its promise: both views of its hub are the interests, sockets with a connection
  -- are open, and no socket stands twice under a channel.
  pub record Keeps (server : WebSocketServer W D) (m : Interests) : Type 0 where
    pub hub : WebSocketHub D
    pub rest : List (WebSocketHub D)
    pub first : server.hubs ≡ hub ∷ rest
    pub up : (i : String) → is_open (get i server.sockets) ≡ m.is_up i
    pub listening : (i ch : String) → listens i ch hub ≡ m.interested i ch
    pub hearing : (i ch : String) → hears i ch hub ≡ m.interested i ch
    pub once : OnceEach hub
    pub connected : (i : String) → get i hub.connections ≢ none → m.is_up i ≡ true

  abbrev pub perform_all : List (Op W D) → WebSocketServer W D → WebSocketServer W D
  perform_all [] server = server
  perform_all (op ∷ ops) server = perform_all ops (perform op server)

  abbrev pub promise_all : List (Op W D) → Interests → Interests
  promise_all [] m = m
  promise_all (op ∷ ops) m = promise_all ops (promise op m)

  abbrev pub new_server : WebSocketServer W D
  new_server = record { sockets = []; hubs = new_hub ∷ [] }
