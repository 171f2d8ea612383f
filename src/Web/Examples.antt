-- ===== src/Web/Examples.antt =====
-- The theorems of Web at concrete data.
use nameko.Prelude.{
  Bool, ℕ, String, ◌≡◌, false, Option, none, some, List, [], ◌∷◌, string_eq, refl, length,
  if◌then◌else◌, ◌==◌, Bool-cases, inl, inr, ◌-◌, ◌⊎◌, ◌&&◌, true, leb, Among, first, later,
  Option-cases, arith, ap, ◌∙◌, subst,
}
use nameko.Prelude.Scan.{Text}
use nameko.Prelude.Set.{contains, Distinct}
use nameko.Exceptions.{nil}
use nameko.Rpc.Server.{builtin}
use nameko.Exceptions.Registry.{Exc}
use nameko.Action.{Result, returned, raised}
use nameko.Web.Http.{Handler, pair, string}
use nameko.Web.Http.Responses.{Responds, handle_request-responds}
use nameko.Web.Hub.{WebSocketServer, broadcast}
use nameko.Web.Hub.Runs.{
  Interests, Op, opens, closes, joins, leaves, Keeps, perform_all, promise_all, new_server,
  no_interests,
}
use nameko.Web.Hub.Promise.{perform_all-Keeps, new_server-Keeps}
use nameko.Web.Hub.Broadcast.{messages, broadcast-reaches}
use nameko.Web.Server.{colon, BindAddress, misconfigured, parse_address}
use nameko.Web.Server.Address.{IsAddress, parse_address-reads}
use nameko.Web.Server.Wsgi.{HttpRequestHandler, Rule, Reply, Werkzeug, make_url_map, call_app}
use nameko.Web.Server.Wsgi.Routing.{IsWritable, IsReply, call_app-replies}
use nameko.Web.Requests.{Endpoint, websocket_mainloop, invalid_frame}
use nameko.Web.Requests.Answers.{Sent, handle_websocket_request_answers}
use nameko.Web.Requests.Cleanup.{KeepsPromise, websocket_mainloop-cleans}

-- Sockets are numbers, without context data.
abbrev ops : List (Op ℕ Unit)
ops =
    opens "a" 1 tt
    ∷ opens "b" 2 tt
    ∷ joins "a" "news"
    ∷ joins "b" "news"
    ∷ joins "c" "news"
    ∷ leaves "b" "news"
    ∷ closes "b"
    ∷ []

perform_all-Keeps_example : Keeps (perform_all ops new_server) (promise_all ops no_interests)
perform_all-Keeps_example = perform_all-Keeps ops new_server no_interests new_server-Keeps

abbrev works : ℕ → String → Option Exc
works ws payload = none

broadcast-reaches_example :
    (ids : List String) × Distinct ids
    × ((i : String) → contains i ids ≡ (promise_all ops no_interests).interested i "news")
    × (length (messages (perform_all ops new_server).sockets "hello" ids) ≡ length ids)
    × (broadcast works "news" "hello"
          (perform_all ops new_server).sockets
          perform_all-Keeps_example.hub
          []
        ≡ (returned tt, messages (perform_all ops new_server).sockets "hello" ids))
broadcast-reaches_example =
    broadcast-reaches works "news" "hello" (perform_all ops new_server)
      (promise_all ops no_interests) perform_all-Keeps_example [] (λ ws. refl)

abbrev endpoint : Endpoint String ℕ String
endpoint = record {
  providers = "shout" ∷ [];
  being_killed = none;
  getcallargs = λ method id given. none;
  loads = λ raw.
      if raw == "{}"
      then none
      else some (record { method = some "shout"; payload = raw; correlation_id = some 3 });
  dumps = λ response. returned "dumped";
  worker = λ method id given. returned given;
}

handle_websocket_request_answers_example : Sent endpoint "a" "{method: shout}"
handle_websocket_request_answers_example =
    handle_websocket_request_answers endpoint "a" "{method: shout}" (λ exc e. absurd (cc))
      (λ method given exc e. absurd (cc))

abbrev ops_for : String → String → List (Op ℕ Unit)
ops_for id raw = joins id raw ∷ []

abbrev respond :
    String → String → WebSocketServer ℕ Unit → Result Exc String × WebSocketServer ℕ Unit
respond id raw server =
    if raw == "stop"
    then (raised invalid_frame, server)
    else (returned raw, perform_all (ops_for id raw) server)

respond-KeepsPromise : KeepsPromise works respond
respond-KeepsPromise id raw server m k = elim (Bool-cases (raw == "stop")) [
  | inl stops ↦ rw stops ((m, k))
  | inr goes ↦
      rw goes ((promise_all (ops_for id raw) m, perform_all-Keeps (ops_for id raw) server m k))
]

websocket_mainloop-cleans_example :
    (m : Interests) × Keeps
      (websocket_mainloop works respond "a" tt "hi" 1 ("news" ∷ "stop" ∷ []) new_server).1
      m
    × (m.is_up "a" ≡ false)
    × ((ch : String) → m.interested "a" ch ≡ false)
websocket_mainloop-cleans_example =
    websocket_mainloop-cleans works respond respond-KeepsPromise "a" tt "hi" 1
      ("news" ∷ "stop" ∷ []) new_server no_interests new_server-Keeps

abbrev handler : Handler String String String
handler = record {
  is_expected = λ exc. false;
  is_bad_request = λ exc. false;
  getcallargs = λ request. none;
  being_killed = none;
  worker = λ request. returned (pair 201 (string request));
}

handle_request-responds_example : Responds handler "created"
handle_request-responds_example =
    handle_request-responds handler "created" (λ exc e. absurd (cc)) (λ exc e. absurd (cc))

abbrev ascii_digit : ℕ → Option ℕ
ascii_digit c = if leb b'0' c && leb c b'9' then some (c - b'0') else none

-- h:80
abbrev host_and_port : Text
host_and_port = b'h' ∷ colon ∷ b'8' ∷ b'0' ∷ []

parse_address-reads_example :
    ((b : BindAddress) × IsAddress ascii_digit host_and_port b
      × (parse_address ascii_digit host_and_port ≡ returned b))
    ⊎ (((b : BindAddress) → ¬ IsAddress ascii_digit host_and_port b)
        × (parse_address ascii_digit host_and_port ≡ raised (misconfigured host_and_port)))
parse_address-reads_example = parse_address-reads ascii_digit refl refl host_and_port

parses_host_and_port :
    parse_address ascii_digit host_and_port ≡ returned (record { address = b'h' ∷ []; port = 80 })
unfolding parse_address
parses_host_and_port = refl

abbrev Provider : Type 0
Provider = HttpRequestHandler String String String

abbrev not_found : Exc
not_found = record { type = builtin "NotFound"; args = nil; as_text = some "" }

-- Rules fit the requests that are their URLs.
abbrev endpoint_or : Option Provider → Result Exc (Provider × Unit) → Result Exc (Provider × Unit)
endpoint_or none rest = rest
endpoint_or (some p) rest = returned (p, tt)

unfoldable route : List (Rule Provider) → String → Result Exc (Provider × Unit)
route [] request = raised not_found
route (r ∷ rules) request =
    let rest = route rules request in if r.url == request then endpoint_or r.endpoint rest else rest

abbrev router : Werkzeug String String String Unit
router = record {
  match = route;
  is_http = λ exc. true;
  set_path_values = λ values request. request;
}

abbrev Fitting : List (Rule Provider) → String → Provider → Type 0
Fitting rules request p =
    (rule : Rule Provider) × Among rule rules × (rule.endpoint ≡ some p) × (rule.url ≡ request)

deeper :
    (r : Rule Provider) (rules : List (Rule Provider)) (request : String) (p : Provider)
    → Fitting rules request p
    → Fitting (r ∷ rules) request p
deeper r rules request p (rule, h, ends, fits) = (rule, later r rules h, ends, fits)

route-finds :
    (rules : List (Rule Provider)) (request : String) (p : Provider) (values : Unit)
    → route rules request ≡ returned (p, values)
    → Fitting rules request p
unfolding route
route-finds [] request p values e = absurd (cc)
route-finds (r ∷ rules) request p values e = elim (Bool-cases (r.url == request)) [
  | inr no_it ↦
      deeper r rules request p (route-finds rules request p values (ground (arith, no_it, e)))
  | inl fits ↦ elim (Option-cases r.endpoint) [
    | inl none_it ↦
        deeper r rules request p
          (route-finds rules request p values (ground (arith, fits, none_it, e)))
    | inr (q, ends) ↦
        let same : q ≡ p = ground (arith, fits, ends, e) in
        (r, first r rules refl, ends ∙ ap some same, (string_eq.equal_iff r.url request).0 fits)
  ]
]

abbrev never : Exc → Bool
never exc = false

route-exhausts :
    (rules : List (Rule Provider)) (request : String) (exc : Exc)
    → route rules request ≡ raised exc
    → (rule : Rule Provider) (p : Provider) → Among rule rules
    → rule.endpoint ≡ some p
    → rule.url ≡ request
    → ⊥
unfolding route
route-exhausts [] request exc e rule p h ends fits = elim h [ ]
route-exhausts (r ∷ rules) request exc e rule p (first _ _ it) ends fits =
    let same : (r.url == request) ≡ true =
      (string_eq.equal_iff r.url request).1 (ap (λ x. x.url) it ∙ fits) in
    let there : r.endpoint ≡ some p = ap (λ x. x.endpoint) it ∙ ends in
    absurd (ground (arith, same, there, e))
route-exhausts (r ∷ rules) request exc e rule p (later _ _ h) ends fits =
    route-exhausts rules request exc
      (elim (Bool-cases (r.url == request)) [
        | inr no_it ↦ ground (arith, no_it, e)
        | inl yes_it ↦ elim (Option-cases r.endpoint) [
          | inl none_it ↦ ground (arith, yes_it, none_it, e)
          | inr (q, there) ↦ absurd (ground (arith, yes_it, there, e))
        ]
      ])
      rule p h ends fits

abbrev index : Provider
index = record { method = b'G' ∷ b'E' ∷ b'T' ∷ []; url = "/"; handler = handler }

index-IsWritable :
    (p : Provider)
    → Among p (index ∷ [])
    → IsWritable router (λ url methods request. url ≡ request) never p
index-IsWritable p (first _ _ it) =
    subst (λ x. IsWritable router (λ url methods request. url ≡ request) never x) it
      (λ exc e. absurd (cc), λ request exc e. absurd (cc))
index-IsWritable p (later _ _ h) = elim h [ ]

call_app-replies_example :
    (rv : Reply String String) × (call_app router (make_url_map (index ∷ [])) "/" ≡ returned rv)
    × IsReply router (λ url methods request. url ≡ request) never (index ∷ []) "/" rv
call_app-replies_example =
    call_app-replies router (λ url methods request. url ≡ request) never (index ∷ []) "/"
      (record {
        finds = route-finds;
        refuses = λ url_map request exc e. refl;
        exhausts = λ url_map request exc e plain. route-exhausts url_map request exc e;
      })
      index-IsWritable
