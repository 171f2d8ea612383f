-- ===== src/Web/Server/Wsgi/Routing.antt =====
-- Which provider answers a request (nameko/web/server.py).
use nameko.Prelude.Scan.{Text, Chars}
use nameko.Prelude.{
  ℕ, String, Bool, false, not, nat_eq, ◌++◌, All, Bool-cases, ◌≡◌, inl, inr, true, some, List, [],
  ◌∷◌, Among, first, later, arith, refl, ap, sym, ◌∙◌, subst,
}
use nameko.Exceptions.Registry.{Exc}
use nameko.Action.{Result-cases, returned, raised}
use nameko.Web.Requests.Answers.{Writable}
use nameko.Web.Http.{Response}
use nameko.Web.Http.Responses.{Answers, handle_request-responds}
use nameko.Web.Server.Wsgi.{
  HttpRequestHandler, Rule, Reply, answer, http_error, comma, onto_first, split, get_url_rule,
  rule_of, make_url_map, Werkzeug, call_app,
}

-- The methods of an entrypoint are written with commas between them.
abbrev pub joined : List Text → Text
joined [] = []
joined (part ∷ []) = part
joined (part ∷ next ∷ parts) = part ++ comma ∷ joined (next ∷ parts)

abbrev pub IsList : List Text → Text → Type 0
IsList [] text = ⊥
IsList (part ∷ parts) text =
    (joined (part ∷ parts) ≡ text) × All (Chars (λ c. not (nat_eq c comma))) (part ∷ parts)

split-IsList : (text : Text) → IsList (split text) text
unfolding split
split-IsList [] = (refl, (tt, tt))
split-IsList (c ∷ cs) = elim (Bool-cases (nat_eq c comma)) [
  | inl is_comma ↦
      rw is_comma (started c (split cs) cs (ground (arith, is_comma)) (split-IsList cs))
  | inr other ↦ rw other (lengthened c (split cs) cs other (split-IsList cs))
]
  where
    started :
        (c : ℕ) (parts : List Text) (cs : Text)
        → c ≡ comma
        → IsList parts cs
        → IsList ([] ∷ parts) (c ∷ cs)
    started c [] cs e h = elim h [ ]
    started c (part ∷ parts) cs e h = (ground (arith, e, h.0), (tt, h.1))

    lengthened :
        (c : ℕ) (parts : List Text) (cs : Text)
        → nat_eq c comma ≡ false
        → IsList parts cs
        → IsList (onto_first c parts) (c ∷ cs)
    lengthened c [] cs e h = elim h [ ]
    lengthened c (part ∷ []) cs e h = (ap (λ l. c ∷ l) h.0, ((ground (arith, e), h.1.0), tt))
    lengthened c (part ∷ next ∷ parts) cs e h =
        (ap (λ l. c ∷ l) h.0, ((ground (arith, e), h.1.0), h.1.1))

module _ {Q W H : Type 0} where
  -- A rule of the map whose endpoint is a provider is the rule of that provider, which is registered.
  rule-registered :
      (p : HttpRequestHandler Q W H) (rule : Rule (HttpRequestHandler Q W H))
      (providers : List (HttpRequestHandler Q W H))
      → Among rule (make_url_map providers)
      → rule.endpoint ≡ some p
      → Among p providers × (rule ≡ rule_of p)
  unfolding make_url_map
  rule-registered p rule [] h e = elim h [ ]
  rule-registered p rule (q ∷ providers) (first _ _ it) e =
      let same : q ≡ p = ground (arith, ap (λ r. r.endpoint) it, e) in
      (first q providers same, sym it ∙ ap rule_of same)
  rule-registered p rule (q ∷ providers) (later _ _ h) e =
      let (registered, it) = rule-registered p rule providers h e in
      (later q providers registered, it)

  rule_of-listed :
      (p : HttpRequestHandler Q W H) (providers : List (HttpRequestHandler Q W H))
      → Among p providers
      → Among (rule_of p) (make_url_map providers)
  unfolding make_url_map
  rule_of-listed p [] h = elim h [ ]
  rule_of-listed p (q ∷ providers) (first _ _ it) =
      first (rule_of q) (make_url_map providers) (ap rule_of it)
  rule_of-listed p (q ∷ providers) (later _ _ h) =
      later (rule_of q) (make_url_map providers) (rule_of-listed p providers h)

module _ {Q W H V : Type 0} (werkzeug : Werkzeug Q W H V) (Fits : String → List Text → Q → Type 0)
    (is_redirect : Exc → Bool) where
  open werkzeug use {match, is_http, set_path_values}

  -- What the matching promises: it finds the endpoint of a rule that is in the map and fits, or raises
  -- an HTTPException; unless that is a redirect, no rule with an endpoint fits then.
  pub record Matches : Type 0 where
    pub finds :
        (url_map : List (Rule (HttpRequestHandler Q W H))) (request : Q)
        (p : HttpRequestHandler Q W H) (values : V)
        → match url_map request ≡ returned (p, values)
        → (rule : Rule (HttpRequestHandler Q W H)) × Among rule url_map
          × (rule.endpoint ≡ some p)
          × Fits rule.url rule.methods request
    pub refuses :
        (url_map : List (Rule (HttpRequestHandler Q W H))) (request : Q) (exc : Exc)
        → match url_map request ≡ raised exc
        → is_http exc ≡ true
    pub exhausts :
        (url_map : List (Rule (HttpRequestHandler Q W H))) (request : Q) (exc : Exc)
        → match url_map request ≡ raised exc
        → is_redirect exc ≡ false
        → (rule : Rule (HttpRequestHandler Q W H)) (p : HttpRequestHandler Q W H)
        → Among rule url_map
        → rule.endpoint ≡ some p
        → Fits rule.url rule.methods request
        → ⊥

  -- The exceptions of a provider's worker, and of its container when that is killed, are
  -- serializable.
  abbrev pub IsWritable : HttpRequestHandler Q W H → Type 0
  IsWritable p =
      ((exc : Exc) → p.handler.being_killed ≡ some exc → Writable exc)
      × ((request : Q) (exc : Exc) → p.handler.worker request ≡ raised exc → Writable exc)

  module _ (providers : List (HttpRequestHandler Q W H)) (request : Q) where
    -- The reply of the app: what the matching raises, or a response of a registered provider whose rule
    -- fits, to the request with the values of its path.
    pub data IsReply : Reply W H → Type 0 where
      refused :
          (exc : Exc)
          → match (make_url_map providers) request ≡ raised exc
          → (is_redirect exc ≡ false
              → (p : HttpRequestHandler Q W H) → Among p providers
              → (methods : List Text) × IsList methods p.method × (Fits p.url methods request → ⊥))
          → IsReply (http_error exc)
      handled :
          (p : HttpRequestHandler Q W H) (values : V) (r : Response W H)
          → match (make_url_map providers) request ≡ returned (p, values)
          → Among p providers
          → (methods : List Text) → IsList methods p.method
          → Fits p.url methods request
          → Answers p.handler (set_path_values values request) r
          → IsReply (answer r)

    -- Let werkzeug's matching keep its promise, and the exceptions of every provider be serializable.
    -- Every request gets a reply: the response of a registered provider whose URL and methods, which
    -- are those between the commas of its `method`, fit the request; or the HTTPException of the
    -- matching, which is a redirect, or no registered provider fits.
    pub call_app-replies :
        Matches
        → ((p : HttpRequestHandler Q W H) → Among p providers → IsWritable p)
        → (rv : Reply W H) × (call_app werkzeug (make_url_map providers) request ≡ returned rv)
          × IsReply rv
    unfolding call_app get_url_rule
    call_app-replies m writable = elim (Result-cases (match (make_url_map providers) request)) [
      | inl (exc, e) ↦ (
        http_error exc,
        rw (e, m.refuses (make_url_map providers) request exc e) refl,
        refused exc e (λ plain p registered. (
          split p.method,
          split-IsList p.method,
          m.exhausts (make_url_map providers) request exc e plain (rule_of p) p
              (rule_of-listed p providers registered) refl,
        )),
      )
      | inr ((p, values), e) ↦
          let (rule, listed, ends, fits) = m.finds (make_url_map providers) request p values e in
          let (registered, it) = rule-registered p rule providers listed ends in
          let w = writable p registered in
          let (r, answered, answers) =
            handle_request-responds p.handler (set_path_values values request) w.0
              (w.1 (set_path_values values request)) in
          (
            answer r,
            rw (e, answered) refl,
            handled p values r e registered (split p.method) (split-IsList p.method)
                (subst (λ x. Fits x.url x.methods request) it fits) answers,
          )
    ]
