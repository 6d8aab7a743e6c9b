-- ===== src/App/Wiring.antt =====
-- The parts of the server that `runRelayServer` starts, and what they do to the world.
use ohttp_relay.Prelude.{
  ◌*◌, ◌≡◌, ◌⊎◌, inl, inr, true, Option, none, some, List, [], ◌∷◌, ℤ, pos, arith, Option-cases,
  Bool-cases,
}
use ohttp_relay.Text.{Text, Unicode}
use ohttp_relay.Fault.{Error, ok, bind-eq-ok}
use ohttp_relay.Exec.{RedisCommand, Effect, Env, redis_hget, redis_exec}
use ohttp_relay.Exec.Does.{
  Does, Any, Does-pure, Does-ask, Does-perform, Does-if, Does-bind, Does-weaken,
}
use ohttp_relay.Traffic.{
  RedisTrafficMetrics, hour, run_pipeline, record_traffic, no_op_record_traffic,
}
use ohttp_relay.Gateway.{
  lookup, static_map_url_source, redis_target_url, chain_sources, http_key_config_source,
}
use ohttp_relay.Gateway.Effects.{
  static_map_url_source-Does, chain_sources-Does, redis_target_url-Does, Reaches, InRedis,
  Reaches-weaken,
}
use ohttp_relay.Relay.{relay}
use ohttp_relay.Config.{Config}
use ohttp_relay.Handlers.Server.{Server, new_server}
use ohttp_relay.App.{
  start, Pings, Sources, redis_sources, redis_options, uses_redis, choose_sources, relay_runner,
  run_relay_server,
}

-- the server over given sources
abbrev pub server_of : Config → Sources → Server
server_of cfg sources =
    new_server (relay sources.gw_source) (http_key_config_source sources.gw_source)
      cfg.max_request_body_size (some sources.traffic_metrics)

abbrev pub static_sources : Config → Sources
static_sources cfg = record {
  gw_source = static_map_url_source cfg.domain_map;
  traffic_metrics = no_op_record_traffic;
}

started_server :
    (cfg : Config) (sources : Sources) (cert : Option Error) {s : Server}
    → start (relay_runner cfg sources) cert ≡ ok s
    → s ≡ server_of cfg sources
unfolding start relay_runner
started_server cfg sources none h = cc
started_server cfg sources (some e) h = cc

module _ ⦃u : Unicode⦄ where
  abbrev pub sources_with : Config → RedisTrafficMetrics → Sources
  sources_with cfg tm = record {
    gw_source = chain_sources (static_map_url_source cfg.domain_map ∷ redis_target_url ∷ []);
    traffic_metrics = record_traffic (some tm);
  }

  redis_sources-eq :
      (cfg : Config) (ping : Option Error) {sources : Sources}
      → redis_sources cfg ping ≡ ok sources
      → (tm : RedisTrafficMetrics) × (sources ≡ sources_with cfg tm)
  unfolding redis_sources
  redis_sources-eq cfg none h = (record { rdb = true; ttl = pos (72 * hour) }, ground arith)
  redis_sources-eq cfg (some e) h = absurd (ground arith)

  pub choose_sources-eq :
      (cfg : Config) (pings : Pings) {sources : Sources}
      → choose_sources cfg pings ≡ ok sources
      → (sources ≡ static_sources cfg)
        ⊎ ((tm : RedisTrafficMetrics) × (uses_redis cfg ≡ true) × (sources ≡ sources_with cfg tm))
  unfolding choose_sources
  choose_sources-eq cfg pings h = elim (Bool-cases (uses_redis cfg)) [
    | inl on ↦ elim (Option-cases (pings.at_start (redis_options cfg))) [
      | inl up ↦
          let (tm, e) =
            redis_sources-eq cfg (pings.for_metrics (redis_options cfg)) (ground arith) in
          inr (tm, on, e)
      | inr (e, down) ↦ absurd (ground arith)
    ]
    | inr off ↦ inl (ground arith)
  ]

  pub run_relay_server-eq :
      (cfg : Config) (pings : Pings) (cert : Option Error) {s : Server}
      → run_relay_server cfg pings cert ≡ ok s
      → (sources : Sources) × (choose_sources cfg pings ≡ ok sources) × (s ≡ server_of cfg sources)
  unfolding run_relay_server
  run_relay_server-eq cfg pings cert h =
      let (sources, chosen, started) =
        bind-eq-ok (choose_sources cfg pings) (λ sources. start (relay_runner cfg sources) cert)
          h in
      (sources, chosen, started_server cfg sources cert started)

-- What the relay takes as the URL of the gateway of a host: that of a mapping, or, if Redis is in
-- use, that of Redis.
abbrev pub IsGatewayOf : ⦃u : Unicode⦄ → Env → Config → Text → Text → Type 0
IsGatewayOf env cfg host url =
    (lookup cfg.domain_map host ≡ some url) ⊎ ((uses_redis cfg ≡ true) × InRedis env host url)

module _ {env : Env} {P : Effect → Type 0} (host : Text) where
  static_sources-Does :
      ⦃u : Unicode⦄ (cfg : Config)
      → Does env P (Reaches (IsGatewayOf env cfg host)) (static_map_url_source cfg.domain_map host)
  static_sources-Does cfg =
      Does-weaken (static_map_url_source-Does cfg.domain_map host) (Reaches-weaken (λ url. inl))

  -- Static mappings do nothing to the world, and Redis is only asked.
  pub sources-Does :
      ⦃u : Unicode⦄ (cfg : Config) (pings : Pings) {sources : Sources}
      → (uses_redis cfg ≡ true → (key field : Text) → P (redis_hget key field))
      → choose_sources cfg pings ≡ ok sources
      → Does env P (Reaches (IsGatewayOf env cfg host)) (sources.gw_source host)
  sources-Does cfg pings p h = elim (choose_sources-eq cfg pings h) [
    | inl e ↦ rw e (static_sources-Does cfg)
    | inr (tm, on, e) ↦ rw e (
        chain_sources-Does _ host (
          static_sources-Does cfg,
          (
            Does-weaken (redis_target_url-Does host (p on)) (Reaches-weaken (λ url r. inr (on, r))),
            tt,
          ),
        ))
  ]

  run_pipeline-Does :
      (r : RedisTrafficMetrics) (a b : ℤ)
      → ((pipe : List RedisCommand) → P (redis_exec pipe))
      → Does env P Any (run_pipeline r host a b)
  unfolding run_pipeline
  run_pipeline-Does r a b p =
      Does-bind {Q = Any} (Does-ask _ (λ t. tt))
        λ t _. Does-bind {Q = Any} (Does-perform _ _ (p _) (λ t. tt)) (λ e _. Does-pure _ tt)

  record_traffic-Does :
      (r : RedisTrafficMetrics) (a b : ℤ)
      → ((pipe : List RedisCommand) → P (redis_exec pipe))
      → Does env P Any (record_traffic (some r) host a b)
  unfolding record_traffic
  record_traffic-Does r a b p = Does-if r.rdb (λ _. run_pipeline-Does r a b p) (λ _. Does-pure _ tt)

  -- The traffic metrics run pipelines in Redis and nothing else.
  pub traffic-Does :
      ⦃u : Unicode⦄ (cfg : Config) (pings : Pings) {sources : Sources} (a b : ℤ)
      → (uses_redis cfg ≡ true → (pipe : List RedisCommand) → P (redis_exec pipe))
      → choose_sources cfg pings ≡ ok sources
      → Does env P Any (sources.traffic_metrics host a b)
  unfolding no_op_record_traffic
  traffic-Does cfg pings a b p h = elim (choose_sources-eq cfg pings h) [
    | inl e ↦ rw e (Does-pure _ tt)
    | inr (tm, on, e) ↦ rw e (record_traffic-Does tm a b (p on))
  ]
