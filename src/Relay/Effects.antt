-- ===== src/Relay/Effects.antt =====
-- What the relayer and the key configuration source do to the world.
use ohttp_relay.Prelude.{ℕ, ◌≡◌, refl, none, some, List}
use ohttp_relay.Text.{Text, Bytes, is_empty}
use ohttp_relay.Fault.{Result, ok, err}
use ohttp_relay.Http.{HttpRequest, HttpResponse, DoResult, responded, failed}
use ohttp_relay.Exec.{
  gateway_requests_total, gateway_request_duration, Measure, measure, http_do, Effect, Env, Trace,
}
use ohttp_relay.Exec.Does.{
  Does, Any, Does-pure, Does-ask, Does-perform, Does-emit, Does-if, Does-bind,
}
use ohttp_relay.Metrics.{record_gateway_request}
use ohttp_relay.Gateway.{UrlSource}
use ohttp_relay.Gateway.Effects.{Reaches}
use ohttp_relay.Relay.{relay_request, relay_answer, send_request, relay_to, relay}

-- The client answered some request with this response.
abbrev pub Answered : Env → HttpResponse → Type 0
Answered env resp = (t : Trace) × (req : HttpRequest) × (env.client_do t req ≡ responded resp)

abbrev pub FromClient : Env → Result HttpResponse → Type 0
FromClient env (ok resp) = Answered env resp
FromClient env (err e) = Unit

-- The effects that a set of effects has to hold for a call of the relayer to stay inside it.
pub record HoldsRelay (P : Effect → Type 0) (G : Text → Type 0) (body : Bytes)
    (content_type method : Text) : Type 0 where
  pub total : (m : Measure) (a : List (Text × Text)) → P (measure gateway_requests_total m a)
  pub duration : (m : Measure) (a : List (Text × Text)) → P (measure gateway_request_duration m a)
  pub call : (url : Text) → G url → P (http_do (relay_request url body content_type method))

module _ {env : Env} {P : Effect → Type 0} {G : Text → Type 0} {body : Bytes}
    {content_type method : Text} (h : HoldsRelay P G body content_type method) where
  send_request-Does :
      (start : ℕ) (url : Text)
      → G url
      → Does env P
          (FromClient env)
          (send_request start (relay_request url body content_type method))
  unfolding send_request record_gateway_request
  send_request-Does start url g =
      Does-bind
        {Q = λ a. (t : Trace) × (env.client_do t (relay_request url body content_type method) ≡ a)}
        (Does-perform _ _ (h.call url g) (λ t. (t, refl)))
        λ answer q. Does-bind {Q = Any} (Does-ask _ (λ t. tt)) λ stop _.
          Does-bind {Q = Any}
            (Does-bind {Q = Any} (Does-emit _ (h.total _ _)) (λ _ _. Does-emit _ (h.duration _ _)))
            λ _ _. Does-pure _ (from_answer answer q)
    where
      from_answer :
          (a : DoResult)
          → (t : Trace) × (env.client_do t (relay_request url body content_type method) ≡ a)
          → FromClient env (relay_answer a)
      from_answer (responded r) (t, e) = (t, relay_request url body content_type method, e)
      from_answer (failed e r) q = tt

  relay_to-Does :
      (start : ℕ) (r : Result Text) (host : Text)
      → Reaches G r
      → Does env P (FromClient env) (relay_to start r host body content_type method)
  unfolding relay_to
  relay_to-Does start (err e) host g = Does-pure _ tt
  relay_to-Does start (ok gw) host g =
      Does-if (is_empty gw) (λ _. Does-pure _ tt)
        λ full.
          Does-bind {Q = Any} (Does-ask _ (λ t. tt)) (elim [
            | some e ↦ λ _. Does-pure _ tt
            | none ↦ λ _. send_request-Does start gw (g full)
          ])

  -- Beyond the effects of its source, the relayer sends at most its own request, and the response
  -- that it returns is the client's.
  pub relay-Does :
      (source : UrlSource) (host : Text)
      → Does env P (Reaches G) (source host)
      → Does env P (FromClient env) (relay source host body content_type method)
  unfolding relay
  relay-Does source host d =
      Does-bind {Q = Any} (Does-ask _ (λ t. tt))
        λ start _. Does-bind d (λ r g. relay_to-Does start r host g)
