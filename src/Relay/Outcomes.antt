-- ===== src/Relay/Outcomes.antt =====
-- relayer.go: the outcomes of a call of Relay, each with the effects that it has.
use ohttp_relay.Prelude.{
  ℕ, ◌≡◌, ◌≢◌, refl, sym, inl, inr, Option-cases, none, some, List, [], ◌∷◌, ◌++◌, sub_ℕ, pos,
  append-nil, true,
}
use ohttp_relay.Text.{Text, Bytes, codes, is_empty, text_eq}
use ohttp_relay.Fault.{Error, Result, ok, err, is, is_in, no_gateway, message, text, wrapped, end}
use ohttp_relay.Http.{
  Header, HttpRequest, HttpResponse, DoResult, responded, failed, request_method, set_header,
}
use ohttp_relay.Exec.{
  Env, Trace, Effect, pure, ask, http_do, measure, gateway_requests_total, gateway_request_duration,
  count, duration, ◌>>=◌,
}
use ohttp_relay.Metrics.{status_category}
use ohttp_relay.Gateway.{UrlSource}
use ohttp_relay.Relay.{
  relay, relay_to, relay_header, relay_request, relay_answer, seen_status, send_request,
}
use ohttp_relay.Relay.Laws.{relay-eq, send_request-eq}

-- a text, or another one if it is empty
abbrev pub or_else : Text → Text → Text
or_else other [] = other
or_else other (c ∷ t) = c ∷ t

abbrev pub headers_of : Text → Header
headers_of [] = (codes "User-Agent", []) ∷ []
headers_of (c ∷ t) = (codes "Content-Type", c ∷ t) ∷ (codes "User-Agent", []) ∷ []

module _ (env : Env) (host : Text) (body : Bytes) (content_type method : Text) where
  -- the one request of a call
  abbrev pub request_to : Text → HttpRequest
  request_to url = record {
    method = or_else (codes "GET") method;
    url = url;
    header = headers_of content_type;
    body = body;
  }

  abbrev pub attributes : ℕ → List (Text × Text)
  attributes status = (codes "status_category", status_category status) ∷ []

  -- from the trace that the source leaves: the request, and then its metrics, for a status
  abbrev pub measured : ℕ → Trace → Text → ℕ → List Effect
  measured start t url status =
      let req : HttpRequest = request_to url in
      let stop : ℕ = env.now (t ++ http_do req ∷ []) in
      http_do req
      ∷ measure gateway_requests_total (count (pos 1)) (attributes status)
      ∷ measure gateway_request_duration (duration (sub_ℕ stop start)) (attributes status)
      ∷ []

  -- What a call that started at `start` returns for the answer of its source, and which effects it
  -- adds to the trace `t` that the source has left.
  pub data Outcome (start : ℕ) (t : Trace)
      : Result Text → Result HttpResponse → List Effect → Type 0 where
    unknown_host :
        {e : Error}
        → Outcome start t
            (err e)
            (err
              (message (codes "get gateway mapping for host %q: %w") (text host (wrapped e end))))
            []
    no_gateway_for : {e : Error} → is no_gateway e ≡ true → Outcome start t (ok []) (err e) []
    unbuildable :
        {url : Text} {e : Error}
        → url ≢ []
        → env.new_request_error (or_else (codes "GET") method) url ≡ some e
        → Outcome start t
            (ok url)
            (err (message (codes "build relay request: %w") (wrapped e end)))
            []
    answered :
        {url : Text} {resp : HttpResponse}
        → url ≢ []
        → env.new_request_error (or_else (codes "GET") method) url ≡ none
        → env.client_do t (request_to url) ≡ responded resp
        → Outcome start t (ok url) (ok resp) (measured start t url resp.status_code)
    unanswered :
        {url : Text} {e : Error}
        → url ≢ []
        → env.new_request_error (or_else (codes "GET") method) url ≡ none
        → env.client_do t (request_to url) ≡ failed e none
        → Outcome start t
            (ok url)
            (err (message (codes "relay request failed: %w") (wrapped e end)))
            (measured start t url 0)
    failed_after :
        {url : Text} {e : Error} {resp : HttpResponse}
        → url ≢ []
        → env.new_request_error (or_else (codes "GET") method) url ≡ none
        → env.client_do t (request_to url) ≡ failed e (some resp)
        → Outcome start t
            (ok url)
            (err (message (codes "relay request failed: %w") (wrapped e end)))
            (measured start t url resp.status_code)

  -- the outcome of a result and its trace
  abbrev pub Ends : ℕ → Trace → Result Text → Result HttpResponse × Trace → Type 0
  Ends start t from r = (added : List Effect) × (r.1 ≡ t ++ added) × Outcome start t from r.0 added

  request_method-or_else : (m : Text) → request_method m ≡ or_else (codes "GET") m
  unfolding request_method
  request_method-or_else [] = refl
  request_method-or_else (c ∷ m) = refl

  relay_header-headers_of : (t : Text) → relay_header t ≡ headers_of t
  unfolding relay_header set_header text_eq
  relay_header-headers_of [] = refl
  relay_header-headers_of (c ∷ t) = refl

  relay_request-request_to :
      (url : Text) → relay_request url body content_type method ≡ request_to url
  unfolding relay_request
  relay_request-request_to url =
      rw (request_method-or_else method, relay_header-headers_of content_type) refl

  answer-Outcome :
      (start : ℕ) (url : Text) (t : Trace) (a : DoResult)
      → url ≢ []
      → env.new_request_error (or_else (codes "GET") method) url ≡ none
      → env.client_do t (request_to url) ≡ a
      → Outcome start t (ok url) (relay_answer a) (measured start t url (seen_status a))
  answer-Outcome start url t (responded resp) full valid h = answered full valid h
  answer-Outcome start url t (failed e none) full valid h = unanswered full valid h
  answer-Outcome start url t (failed e (some resp)) full valid h = failed_after full valid h

  sent-Ends :
      (start : ℕ) (url : Text) (t : Trace)
      → url ≢ []
      → env.new_request_error (or_else (codes "GET") method) url ≡ none
      → Ends start t
          (ok url)
          (send_request start (relay_request url body content_type method) env t)
  sent-Ends start url t full valid =
      rw (relay_request-request_to url, send_request-eq env start (request_to url) t)
        (
          measured start t url (seen_status (env.client_do t (request_to url))),
          refl,
          answer-Outcome start url t (env.client_do t (request_to url)) full valid refl,
        )

  relay_to-Ends :
      (start : ℕ) (t : Trace) (from : Result Text)
      → Ends start t from (relay_to start from host body content_type method env t)
  unfolding relay_to is_empty pure is is_in ask ◌>>=◌
  relay_to-Ends start t (err e) = ([], sym (append-nil t), unknown_host)
  relay_to-Ends start t (ok []) = ([], sym (append-nil t), no_gateway_for refl)
  relay_to-Ends start t (ok (c ∷ url)) =
      rw (request_method-or_else method)
        (elim (Option-cases (env.new_request_error (or_else (codes "GET") method) (c ∷ url))) [
          | inl valid ↦ rw valid (sent-Ends start (c ∷ url) t (λ e. absurd (cc e)) valid)
          | inr (e, invalid) ↦
              rw invalid ([], sym (append-nil t), unbuildable (λ e. absurd (cc e)) invalid)
        ])

  -- Whatever the source and the HTTP client answer, a call of Relay adds to what its source has done,
  -- and returns, exactly what one of the six outcomes says: an error of the source, no URL for the
  -- host and a request that cannot be made send nothing and return an error, which is ErrNoGateway in
  -- the second case; else one request with the relay's own headers is given to the client and counted
  -- under the status of its response, or under 0 without one, and the response is returned, or an
  -- error if the client has failed.
  pub relay-Outcome :
      (source : UrlSource) (t : Trace)
      → let (from, t') = source host env t in
        Ends (env.now t) t' from (relay source host body content_type method env t)
  relay-Outcome source t =
      rw (relay-eq env source host body content_type method t)
        (relay_to-Ends (env.now t) (source host env t).1 (source host env t).0)
