-- ===== src/Web/Hub/Promise.antt =====
-- A hub of nameko/web/websocket.py and the relation of interests.
use nameko.Prelude.{
  String, ◌≡◌, true, none, List, [], ◌∷◌, string_eq, arith, refl, map, inl, inr, Option-cases,
}
use nameko.Prelude.Dict.{get, get-put, get-remove}
use nameko.Prelude.Set.{contains}
use nameko.Action.{Result-cases, returned, raised}
use nameko.Web.Hub.{
  WebSocketHub, WebSocketServer, ConnectionNotFound, new_hub, Sockets, subscribe, unsubscribe,
  cleanup_websocket, add_websocket, remove_socket,
}
use nameko.Web.Hub.Subscribers.{
  subscribe-OnceEach, cleanup_websocket-OnceEach, unsubscribe-OnceEach,
  connections-cleanup_websocket, connections-unsubscribe,
}
use nameko.Web.Hub.Agreement.{
  listens, hears, subscribe-connects, listens-subscribe, hears-subscribe, listens-unsubscribe,
  hears-unsubscribe, listens-cleanup_websocket, hears-cleanup_websocket,
}
use nameko.Web.Hub.Runs.{
  Op, opens, closes, joins, leaves, is_open, on_hub, perform, Interests, promise, Keeps,
  perform_all, promise_all, new_server, no_interests,
}

module _ {W D : Type 0} where
  opens-Keeps :
      (id : String) (ws : W) (context : D) (server : WebSocketServer W D) (m : Interests)
      → Keeps server m
      → Keeps (perform (opens id ws context) server) (promise (opens id ws context) m)
  unfolding add_websocket
  opens-Keeps id ws context server m k = record {
    hub = k.hub;
    rest = k.rest;
    first = k.first;
    up = λ i.
        ground
          (arith, k.up i, get-put id i (record { socket = ws; context = context }) server.sockets);
    listening = k.listening;
    hearing = k.hearing;
    once = k.once;
    connected = λ i h. ground (arith, k.connected i h);
  }

  closes-Keeps :
      (id : String) (server : WebSocketServer W D) (m : Interests)
      → Keeps server m
      → Keeps (perform (closes id) server) (promise {W = W} {D = D} (closes id) m)
  unfolding remove_socket
  closes-Keeps id server m k = record {
    hub = cleanup_websocket id k.hub;
    rest = map (cleanup_websocket id) k.rest;
    first = rw k.first refl;
    up = λ i. ground (arith, k.up i, get-remove id i server.sockets);
    listening = λ i ch. ground (arith, k.listening i ch, listens-cleanup_websocket id i ch k.hub);
    hearing = λ i ch. ground (
      arith,
      k.listening i ch,
      k.hearing i ch,
      hears-cleanup_websocket id i ch k.hub,
      string_eq.equal_iff id i,
    );
    once = cleanup_websocket-OnceEach id k.hub k.once;
    connected = λ i h. ground (arith, k.connected i, h, connections-cleanup_websocket id i k.hub);
  }

  leaves-Keeps :
      (id channel : String) (server : WebSocketServer W D) (m : Interests)
      → Keeps server m
      → Keeps (perform (leaves id channel) server) (promise {W = W} {D = D} (leaves id channel) m)
  leaves-Keeps id channel server m k = record {
    hub = unsubscribe id channel k.hub;
    rest = k.rest;
    first = rw (k.first, on_hub) refl;
    up = λ i. ground (arith, k.first, k.up i);
    listening = λ i ch. ground (arith, k.listening i ch, listens-unsubscribe id channel i ch k.hub);
    hearing = λ i ch. ground (arith, k.hearing i ch, hears-unsubscribe id channel i ch k.hub);
    once = unsubscribe-OnceEach id channel k.hub k.once;
    connected = λ i h. k.connected i (connections-unsubscribe id channel i k.hub h);
  }

  subscribe_refused :
      (id channel : String) (sockets : Sockets W D) (hub : WebSocketHub D) (e : ConnectionNotFound)
      → subscribe id channel sockets hub ≡ raised e
      → (get id hub.connections ≡ none) × (get id sockets ≡ none)
  unfolding subscribe
  subscribe_refused id channel sockets hub e h = ground arith

  subscriber_is_up :
      (id channel : String) (server : WebSocketServer W D) (m : Interests) (k : Keeps server m)
      (hub' : WebSocketHub D)
      → subscribe id channel server.sockets k.hub ≡ returned hub'
      → m.is_up id ≡ true
  unfolding subscribe
  subscriber_is_up id channel server m k hub' done =
      elim (Option-cases (get id k.hub.connections)) [
        | inr (con, found) ↦ k.connected id (λ absent. ground (arith, found, absent))
        | inl absent ↦ ground (arith, absent, done, k.up id)
      ]

  joins-Keeps :
      (id channel : String) (server : WebSocketServer W D) (m : Interests)
      → Keeps server m
      → Keeps (perform (joins id channel) server) (promise {W = W} {D = D} (joins id channel) m)
  joins-Keeps id channel server m k =
      elim (Result-cases (subscribe id channel server.sockets k.hub)) [
        | inl (e, refused) ↦
            let (absent, closed) = subscribe_refused id channel server.sockets k.hub e refused in
            record {
              hub = k.hub;
              rest = k.rest;
              first = ground (arith, k.first, refused);
              up = λ i. ground (arith, k.first, k.up i);
              listening = λ i ch. ground (arith, k.listening i ch, k.up id, closed);
              hearing = λ i ch. ground (arith, k.hearing i ch, k.up id, closed);
              once = k.once;
              connected = k.connected;
            }
        | inr (hub', done) ↦
            let (con, same, is_open, conns, subs) =
              subscribe-connects id channel server.sockets k.hub hub' done in
            let up_now = subscriber_is_up id channel server m k hub' done in
            record {
              hub = hub';
              rest = k.rest;
              first = ground (arith, k.first, done);
              up = λ i. ground (arith, k.first, k.up i);
              listening = λ i ch. ground (
                arith,
                k.listening i ch,
                up_now,
                listens-subscribe id channel server.sockets k.hub hub' done i ch,
              );
              hearing = λ i ch. ground (
                arith,
                k.hearing i ch,
                up_now,
                hears-subscribe id channel server.sockets k.hub hub' done i ch,
              );
              once = subscribe-OnceEach id channel server.sockets k.hub hub' done k.once;
              connected = λ i h.
                  ground (arith, k.connected i, conns i, h, up_now, string_eq.equal_iff id i);
            }
      ]

  pub perform-Keeps :
      (op : Op W D) (server : WebSocketServer W D) (m : Interests)
      → Keeps server m
      → Keeps (perform op server) (promise op m)
  perform-Keeps (opens id ws context) server m k = opens-Keeps id ws context server m k
  perform-Keeps (closes id) server m k = closes-Keeps id server m k
  perform-Keeps (joins id channel) server m k = joins-Keeps id channel server m k
  perform-Keeps (leaves id channel) server m k = leaves-Keeps id channel server m k

  -- A hub implements the relation of interests: whatever sockets open, close, subscribe and
  -- unsubscribe, in any order, from a server that keeps its promise, the sockets of the connections
  -- and the sets of the channels both say what the relation says. Closing a socket ends its
  -- interests, and subscribing a socket that is not open changes nothing.
  pub perform_all-Keeps :
      (ops : List (Op W D)) (server : WebSocketServer W D) (m : Interests)
      → Keeps server m
      → Keeps (perform_all ops server) (promise_all ops m)
  perform_all-Keeps [] server m k = k
  perform_all-Keeps (op ∷ ops) server m k =
      perform_all-Keeps ops (perform op server) (promise op m) (perform-Keeps op server m k)

  pub new_server-Keeps : Keeps {W = W} {D = D} new_server no_interests
  unfolding listens hears get contains
  new_server-Keeps = record {
    hub = new_hub;
    rest = [];
    first = refl;
    up = λ i. refl;
    listening = λ i ch. refl;
    hearing = λ i ch. refl;
    once = λ ch. tt;
    connected = λ i h. absurd (h refl);
  }
