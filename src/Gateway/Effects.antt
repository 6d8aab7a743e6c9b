-- ===== src/Gateway/Effects.antt =====
-- What the gateway sources and the key configuration source do to the world.
use ohttp_relay.Prelude.{
  Bool-cases, inl, inr, ◌∙◌, ◌≡◌, refl, Bool, true, false, none, some, List, [], ◌∷◌, ◌++◌, arith,
  not, ◌==◌, All,
}
use ohttp_relay.Text.{Text, Bytes, codes, to_lower, trim_space, is_empty, Unicode}
use ohttp_relay.Fault.{Result, ok, err, is, redis_nil}
use ohttp_relay.Http.{HttpRequest, HttpResponse, DoResult, responded, failed}
use ohttp_relay.Exec.{redis_hget, http_do, Effect, Env, Trace, Exec}
use ohttp_relay.Exec.Does.{Does, Any, Does-pure, Does-ask, Does-perform, Does-if, Does-bind}
use ohttp_relay.Gateway.{
  Map, UrlSource, ohttp_configs_path, key_config_request, key_config_answer, fetch_key_config,
  key_config_from, http_key_config_source, chain_round, chain_sources, static_map_url_source,
  redis_target_url, get, lookup, hget_answer,
}

-- The body of a key configuration is that of some response of status 200.
abbrev pub FromKeyConfig : Env → Result Bytes → Type 0
FromKeyConfig env (err e) = Unit
FromKeyConfig env (ok b) =
    (t : Trace) × (req : HttpRequest) × (resp : HttpResponse) × (env.client_do t req
      ≡ responded resp)
    × (resp.status_code ≡ 200)
    × (b ≡ resp.body)

key_config_answer-FromKeyConfig :
    (env : Env) (a : DoResult) (t : Trace) (req : HttpRequest)
    → env.client_do t req ≡ a
    → FromKeyConfig env (key_config_answer a)
unfolding key_config_answer
key_config_answer-FromKeyConfig env (failed e r) t req h = tt
key_config_answer-FromKeyConfig env (responded r) t req h = go (r.status_code == 200) refl
  where
    go :
        (b : Bool)
        → (r.status_code == 200) ≡ b
        → FromKeyConfig env (key_config_answer (responded r))
    go true e = rw (e, key_config_answer) (t, req, r, h, ground arith, refl)
    go false e = rw (e, key_config_answer) tt

-- The URL that a source gives, if it gives one, satisfies `G`.
abbrev pub Reaches : (Text → Type 0) → Result Text → Type 0
Reaches G (err e) = Unit
Reaches G (ok gw) = is_empty gw ≡ false → G gw

-- A URL that Redis has for a host.
abbrev pub InRedis : ⦃u : Unicode⦄ → Env → Text → Text → Type 0
InRedis env host url =
    (t : Trace) × (env.hget t (to_lower (trim_space host)) (codes "url") ≡ ok url)

get-mapped :
    (m : Map Text) (host : Text) → is_empty (get m host) ≡ false → lookup m host ≡ some (get m host)
unfolding get is_empty
get-mapped m host full = ground (arith)

pub Reaches-weaken :
    {G H : Text → Type 0}
    → ((url : Text) → G url → H url)
    → (r : Result Text) → Reaches G r
    → Reaches H r
Reaches-weaken w (err e) g = tt
Reaches-weaken w (ok gw) g = λ full. w gw (g full)

hget_answer-Reaches :
    {G : Text → Type 0} (r : Result Text)
    → ((url : Text) → r ≡ ok url → G url)
    → Reaches G (hget_answer r)
unfolding hget_answer is_empty
hget_answer-Reaches (ok v) g = λ _. g v refl
hget_answer-Reaches (err e) g = elim (Bool-cases (is redis_nil e)) [
  | inl gone ↦ rw gone (λ h. absurd (cc h))
  | inr broken ↦ rw broken tt
]

module _ {env : Env} {P : Effect → Type 0} where
  fetch_key_config-Does :
      (url : Text)
      → P (http_do (key_config_request url))
      → Does env P (FromKeyConfig env) (fetch_key_config url)
  unfolding fetch_key_config
  fetch_key_config-Does url p = Does-bind {Q = Any} (Does-ask _ (λ t. tt)) (elim [
    | some e ↦ λ _. Does-pure _ tt
    | none ↦ λ _.
        Does-bind {Q = λ a. (t : Trace) × (env.client_do t (key_config_request url) ≡ a)}
          (Does-perform _ _ p (λ t. (t, refl)))
          λ a q.
            Does-pure _ (key_config_answer-FromKeyConfig env a q.0 (key_config_request url) q.1)
  ])

  key_config_from-Does :
      {G : Text → Type 0} (host : Text) (r : Result Text)
      → ((url : Text) → G url → P (http_do (key_config_request (url ++ ohttp_configs_path))))
      → Reaches G r
      → Does env P (FromKeyConfig env) (key_config_from host r)
  unfolding key_config_from
  key_config_from-Does host (err e) p g = Does-pure _ tt
  key_config_from-Does host (ok url) p g =
      Does-if (is_empty url) (λ _. Does-pure _ tt)
        (λ full. fetch_key_config-Does _ (p url (g full)))

  -- Beyond the effects of its source, the key configuration source sends at most its own request.
  pub http_key_config_source-Does :
      {G : Text → Type 0} (source : UrlSource) (host : Text)
      → ((url : Text) → G url → P (http_do (key_config_request (url ++ ohttp_configs_path))))
      → Does env P (Reaches G) (source host)
      → Does env P (FromKeyConfig env) (http_key_config_source source host)
  unfolding http_key_config_source
  http_key_config_source-Does source host p d = Does-bind d (λ r g. key_config_from-Does host r p g)

  -- A static map does nothing, and gives what the host is mapped to.
  pub static_map_url_source-Does :
      (m : Map Text) (host : Text)
      → Does env P (Reaches (λ url. lookup m host ≡ some url)) (static_map_url_source m host)
  unfolding static_map_url_source
  static_map_url_source-Does m host = Does-pure _ (get-mapped m host)

  chain_round-Does :
      {G : Text → Type 0} (r : Result Text) {rest : Exec (Result Text)}
      → Reaches G r
      → Does env P (Reaches G) rest
      → Does env P (Reaches G) (chain_round r rest)
  unfolding chain_round
  chain_round-Does (err e) g d = Does-pure _ tt
  chain_round-Does (ok gw) g d = Does-if (not (is_empty gw)) (λ _. Does-pure _ g) (λ _. d)

  -- A chain does what its sources do, and gives what one of them gives.
  pub chain_sources-Does :
      {G : Text → Type 0} (sources : List UrlSource) (host : Text)
      → All (λ s. Does env P (Reaches G) (s host)) sources
      → Does env P (Reaches G) (chain_sources sources host)
  unfolding chain_sources is_empty
  chain_sources-Does [] host _ = Does-pure _ (λ h. absurd (cc h))
  chain_sources-Does (s ∷ sources) host (d, ds) =
      Does-bind d (λ r g. chain_round-Does r g (chain_sources-Does sources host ds))

  -- The Redis source asks Redis once, and gives what it has for the host.
  pub redis_target_url-Does :
      ⦃u : Unicode⦄ (host : Text)
      → ((key field : Text) → P (redis_hget key field))
      → Does env P (Reaches (InRedis env host)) (redis_target_url host)
  unfolding redis_target_url
  redis_target_url-Does host p =
      Does-bind {Q = λ r. (t : Trace) × (env.hget t (to_lower (trim_space host)) (codes "url") ≡ r)}
        (Does-perform _ _ (p _ _) (λ t. (t, refl)))
        (λ r q. Does-pure _ (hget_answer-Reaches r (λ url h. (q.0, q.1 ∙ h))))
