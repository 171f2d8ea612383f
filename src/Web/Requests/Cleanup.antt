-- ===== src/Web/Requests/Cleanup.antt =====
-- The end of the main loop of a websocket (nameko/web/websocket.py).
use nameko.Prelude.{String, ◌≡◌, false, Option, List, [], ◌∷◌, string_eq, arith, ==-refl}
use nameko.Action.{Result, returned, raised}
use nameko.Web.Hub.{WebSocketServer, add_websocket}
use nameko.Web.Hub.Runs.{opens, closes, Interests, Keeps, promise}
use nameko.Web.Hub.Promise.{perform-Keeps}
use nameko.Web.Requests.{serve_frames, websocket_mainloop, send_to, go_on}

go_on_either :
    {X S : Type 0} (P : S → Type 0) (r : Result X Unit) (stopped next : S)
    → P stopped
    → P next
    → P (go_on r stopped next)
go_on_either P (raised e) stopped next h k = h
go_on_either P (returned _) stopped next h k = k

module _ {W D X : Type 0} (send : W → String → Option X)
    (respond : String → String → WebSocketServer W D → Result X String × WebSocketServer W D) where
  -- Services work on a hub by its operations, so they keep its promise.
  abbrev pub KeepsPromise : Type 0
  KeepsPromise =
      (id raw : String) (server : WebSocketServer W D) (m : Interests)
      → Keeps server m
      → (m' : Interests) × Keeps (respond id raw server).1 m'

  abbrev StillKept : Result X Unit × WebSocketServer W D → Type 0
  StillKept s = (m : Interests) × Keeps s.1 m

  serve_frames-Keeps :
      KeepsPromise
      → (id : String) (ws : W) (frames : List String) (server : WebSocketServer W D) (m : Interests)
      → Keeps server m
      → (m' : Interests) × Keeps (serve_frames send respond id ws frames server).1 m'
  unfolding serve_frames
  serve_frames-Keeps promised id ws [] server m k = (m, k)
  serve_frames-Keeps promised id ws (raw ∷ rest) server m k =
      let (m', k') = promised id raw server m k in
      go_on_either StillKept (send_to send respond ws (respond id raw server).0) _ _ (m', k')
        (serve_frames-Keeps promised id ws rest (respond id raw server).1 m' k')

  -- Let a hub keep its promise, and let services work on it by its operations. When the main loop of
  -- a socket has ended, because the frames did or because a send or an answer raised, the hub keeps
  -- its promise, the socket is not open, and it is interested in no channel.
  pub websocket_mainloop-cleans :
      KeepsPromise
      → (id : String) (context : D) (greeting : String) (ws : W) (frames : List String)
        (server : WebSocketServer W D) (m : Interests)
      → Keeps server m
      → (m' : Interests) × Keeps
          (websocket_mainloop send respond id context greeting ws frames server).1
          m'
        × (m'.is_up id ≡ false)
        × ((ch : String) → m'.interested id ch ≡ false)
  unfolding websocket_mainloop
  websocket_mainloop-cleans promised id context greeting ws frames server m k =
      let added = add_websocket id ws context server in
      let k' = perform-Keeps (opens id ws context) server m k in
      let (m', kept) =
        go_on_either StillKept (send_to send respond ws (returned greeting)) _ _
          (promise (opens id ws context) m, k')
          (serve_frames-Keeps promised id ws frames added (promise (opens id ws context) m) k') in
      (
        promise {W = W} {D = D} (closes id) m',
        perform-Keeps (closes id) _ m' kept,
        ground (arith, ==-refl id),
        (λ ch. ground (arith, ==-refl id)),
      )
