-- ===== src/Relay/Laws.antt =====
-- relayer.go: what a call of Relay sends, and what it answers.
use ohttp_relay.Prelude.{
  ℕ, ◌≡◌, ◌≢◌, refl, ap, ◌∙◌, true, none, List, [], ◌∷◌, ◌++◌, arith, sub_ℕ, pos, append_assoc,
}
use ohttp_relay.Text.{Text, Bytes, codes, is_empty}
use ohttp_relay.Text.Laws.{is_empty_iff}
use ohttp_relay.Fault.{Error, Result, ok, err, is, is_in, no_gateway}
use ohttp_relay.Http.{HttpRequest, DoResult, request_method}
use ohttp_relay.Exec.{
  Env, Trace, Effect, pure, http_do, measure, gateway_requests_total, gateway_request_duration,
  count, duration, ◌>>=◌,
}
use ohttp_relay.Metrics.{record_gateway_request, status_category}
use ohttp_relay.Gateway.{UrlSource}
use ohttp_relay.Relay.{relay, relay_to, relay_request, seen_status, relay_answer, send_request}

-- The effects of an exchange with a gateway: the request, then its two metrics.
abbrev pub exchange : ℕ → HttpRequest → DoResult → ℕ → List Effect
exchange start req answer stop =
    let attrs : List (Text × Text) =
      (codes "status_category", status_category (seen_status answer)) ∷ [] in
    http_do req
    ∷ measure gateway_requests_total (count (pos 1)) attrs
    ∷ measure gateway_request_duration (duration (sub_ℕ stop start)) attrs
    ∷ []

append_3 :
    {A : Type 0} (t : List A) (a b c : A)
    → ((t ++ a ∷ []) ++ b ∷ []) ++ c ∷ [] ≡ t ++ a ∷ b ∷ c ∷ []
append_3 t a b c = simp append_assoc

module _ (env : Env) where
  pub send_request-eq :
      (start : ℕ) (req : HttpRequest) (t : Trace)
      → send_request start req env t ≡ (
        relay_answer (env.client_do t req),
        t ++ exchange start req (env.client_do t req) (env.now (t ++ http_do req ∷ [])),
      )
  unfolding send_request record_gateway_request ◌>>=◌
  send_request-eq start req t =
      ap (λ (t' : Trace). (relay_answer (env.client_do t req), t')) (append_3 t _ _ _)

  module _ (source : UrlSource) (host : Text) (body : Bytes) (content_type method : Text)
      (t : Trace) where
    pub relay-eq :
        relay source host body content_type method env t
        ≡ relay_to
            (env.now t)
            (source host env t).0
            host
            body
            content_type
            method
            env
            (source host env t).1
    unfolding relay ◌>>=◌
    relay-eq = refl

    relay_to-sends :
        (start : ℕ) (url : Text) (t' : Trace)
        → url ≢ []
        → env.new_request_error (request_method method) url ≡ none
        → relay_to start (ok url) host body content_type method env t'
          ≡ send_request start (relay_request url body content_type method) env t'
    unfolding relay_to ◌>>=◌
    relay_to-sends start url t' full valid = ground (arith, is_empty_iff url)

    -- If the source has a URL for the host and a request can be made for it, Relay sends exactly one
    -- request, to that URL, records its two metrics and nothing else, and returns the client's answer.
    pub relay-sends :
        (url : Text) (t' : Trace)
        → source host env t ≡ (ok url, t')
        → url ≢ []
        → env.new_request_error (request_method method) url ≡ none
        → let req : HttpRequest = relay_request url body content_type method in
          relay source host body content_type method env t ≡ (
            relay_answer (env.client_do t' req),
            t'
                ++ exchange
                    (env.now t)
                    req
                    (env.client_do t' req)
                    (env.now (t' ++ http_do req ∷ [])),
          )
    relay-sends url t' found full valid =
        relay-eq
        ∙ ap
            (λ (r : Result Text × Trace).
              relay_to (env.now t) r.0 host body content_type method env r.1)
            found
        ∙ relay_to-sends (env.now t) url t' full valid
        ∙ send_request-eq (env.now t) _ t'

    -- If the source has no URL for the host, Relay sends nothing, and its error is ErrNoGateway.
    relay-no_gateway :
        (t' : Trace)
        → source host env t ≡ (ok [], t')
        → (e : Error) × (relay source host body content_type method env t ≡ (err e, t'))
          × (is no_gateway e ≡ true)
    unfolding relay_to is is_in is_empty pure
    relay-no_gateway t' found = (
      _,
      relay-eq
          ∙ ap
              (λ (r : Result Text × Trace).
                relay_to (env.now t) r.0 host body content_type method env r.1)
              found,
      refl,
    )
