-- ===== src/Web/Server/Wsgi.antt =====
-- `WsgiApp` of nameko/web/server.py over the entrypoints of nameko/web/handlers.py: from the rules of
-- the registered providers to the reply for a request. The matching of rules is werkzeug's.
pub mod Routing
use nameko.Prelude.Scan.{Text}
use nameko.Prelude.{
  ℕ, String, ◌≡◌, Bool, true, Option, none, some, List, [], ◌∷◌, nat_eq, if◌then◌else◌, map,
}
use nameko.Exceptions.Registry.{Exc}
use nameko.Action.{Result, returned, raised}
use nameko.Web.Requests.{chain}
use nameko.Web.Http.{Response, Handler, handle_request}

abbrev pub comma : ℕ
comma = b','

abbrev pub onto_first : ℕ → List Text → List Text
onto_first c [] = (c ∷ []) ∷ []
onto_first c (part ∷ parts) = (c ∷ part) ∷ parts

-- `method.split(',')`
unfoldable pub split : Text → List Text
split [] = [] ∷ []
split (c ∷ cs) = let rest = split cs in if nat_eq c comma then [] ∷ rest else onto_first c rest

-- An entrypoint: what it was declared with, and how it handles requests.
pub record HttpRequestHandler (Q W H : Type 0) : Type 0 where
  pub method : Text
  pub url : String
  pub handler : Handler Q W H

pub record Rule (P : Type 0) : Type 0 where
  pub url : String
  pub methods : List Text
  pub endpoint : Option P

-- The reply: the response of a provider, or an HTTPException, which is a response too.
pub data Reply (W H : Type 0) : Type 0 where
  answer : Response W H → Reply W H
  http_error : Exc → Reply W H

module _ {Q W H : Type 0} where
  unfoldable pub get_url_rule : HttpRequestHandler Q W H → Rule (HttpRequestHandler Q W H)
  unfolding split
  get_url_rule p = record { url = p.url; methods = split p.method; endpoint = none }

  abbrev pub rule_of : HttpRequestHandler Q W H → Rule (HttpRequestHandler Q W H)
  rule_of p = record (get_url_rule p) { endpoint = some p }

  unfoldable pub make_url_map :
      List (HttpRequestHandler Q W H) → List (Rule (HttpRequestHandler Q W H))
  unfolding get_url_rule
  make_url_map [] = []
  make_url_map (p ∷ providers) = rule_of p ∷ make_url_map providers

-- What is werkzeug's: the matching, `isinstance` with HTTPException, and the setting of `path_values`
-- on a request.
pub record Werkzeug (Q W H V : Type 0) : Type 0 where
  pub match : List (Rule (HttpRequestHandler Q W H)) → Q → Result Exc (HttpRequestHandler Q W H × V)
  pub is_http : Exc → Bool
  pub set_path_values : V → Q → Q

module _ {Q W H V : Type 0} (werkzeug : Werkzeug Q W H V) where
  open werkzeug use {match, is_http, set_path_values}

  abbrev handle_match : Q → HttpRequestHandler Q W H × V → Result Exc (Reply W H)
  handle_match request found =
      chain (handle_request found.0.handler (set_path_values found.1 request))
        (λ rv. returned (answer rv))

  abbrev as_reply : Result Exc (Reply W H) → Result Exc (Reply W H)
  as_reply (returned rv) = returned rv
  as_reply (raised exc) = if is_http exc then returned (http_error exc) else raised exc

  -- `WsgiApp.__call__`, with the map that `__init__` makes
  unfoldable pub call_app : List (Rule (HttpRequestHandler Q W H)) → Q → Result Exc (Reply W H)
  unfolding handle_request
  call_app url_map request = as_reply (chain (match url_map request) (handle_match request))
