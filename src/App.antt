-- ===== src/App.antt =====
-- pkg/ohttp-relay/app/app.go and pkg/ohttp-relay/server/runserver.go: the choice of the gateway
-- source and of the traffic metrics, and the server that they make.
pub mod Accounts
pub mod Booking
pub mod Delivery
pub mod Destinations
pub mod Effects
pub mod Logging
pub mod Safety
pub mod Wiring
use ohttp_relay.Prelude.{
  ◌*◌, Bool, true, not, ◌&&◌, Option, none, some, [], ◌∷◌, ℤ, pos, if◌then◌else◌,
}
use ohttp_relay.Text.{Text, codes, is_empty, Unicode, trim_space}
use ohttp_relay.Fault.{Error, message, end, wrapped, Result, ok, err, bind}
use ohttp_relay.Traffic.{
  TrafficMetrics, hour, new_redis_traffic_metrics, record_traffic, no_op_record_traffic,
}
use ohttp_relay.Gateway.{
  UrlSource, KeyConfigSource, static_map_url_source, redis_target_url, chain_sources,
  http_key_config_source,
}
use ohttp_relay.Relay.{Relayer, relay}
use ohttp_relay.Config.{Config}
use ohttp_relay.Handlers.Server.{Server, new_server}

-- ExtProcServerRunner, without its logger; `Timeout` is never set
pub record ExtProcServerRunner : Type 0 where
  pub grpc_port : ℤ
  pub secure_serving : Bool
  pub timeout : ℤ
  pub max_request_body_size : ℤ
  pub relayer : Relayer
  pub key_config_source : KeyConfigSource
  pub traffic_metrics : Option TrafficMetrics

-- NewExtProcServerRunner
unfoldable pub new_ext_proc_server_runner :
    ℤ → Relayer → KeyConfigSource → ℤ → Option TrafficMetrics → ExtProcServerRunner
new_ext_proc_server_runner port relayer ks max_body_size traffic_metrics = record {
  grpc_port = port;
  secure_serving = true;
  timeout = pos 0;
  max_request_body_size = max_body_size;
  relayer = relayer;
  key_config_source = ks;
  traffic_metrics = traffic_metrics;
}

-- The processor that ExtProcServerRunner.Start registers; `cert` is the error of making the
-- certificate (Serve.Certificate), which a server that does not serve securely does not make.
unfoldable pub start : ExtProcServerRunner → Option Error → Result Server
unfolding new_server
start r cert =
    let s =
      ok (new_server r.relayer r.key_config_source r.max_request_body_size r.traffic_metrics) in
    if r.secure_serving then elim cert [ some e ↦ err e | none ↦ s ] else s

-- redis.Options, as far as they are filled
pub record RedisOptions : Type 0 where
  pub addr : Text
  pub password : Text
  pub db : ℤ
  -- MinVersion of the TLSConfig, if there is one
  pub tls_min_version : Option Text

-- What a connection with these options says at startup: to the Ping of `runRelayServer`, and then to
-- the Ping of NewRedisTrafficMetrics.
pub record Pings : Type 0 where
  pub at_start : RedisOptions → Option Error
  pub for_metrics : RedisOptions → Option Error

unfoldable pub redis_options : Config → RedisOptions
redis_options cfg = record {
  addr = cfg.redis_addr;
  password = cfg.redis_password;
  db = cfg.redis_db;
  tls_min_version = if cfg.redis_tls then some (codes "VersionTLS12") else none;
}

-- the gateway source and the traffic metrics
pub record Sources : Type 0 where
  pub gw_source : UrlSource
  pub traffic_metrics : TrafficMetrics

-- The runner of `runRelayServer`. Its HTTP client has no CheckRedirect, so net/http follows redirects
-- inside Client.Do: what Exec.Env.client_do answers may be that of another URL, and the requests that
-- the client makes for it are no effects of the model.
unfoldable pub relay_runner : Config → Sources → ExtProcServerRunner
unfolding new_ext_proc_server_runner
relay_runner cfg sources =
    new_ext_proc_server_runner cfg.grpc_port (relay sources.gw_source)
      (http_key_config_source sources.gw_source) cfg.max_request_body_size
      (some sources.traffic_metrics)

module _ ⦃u : Unicode⦄ where
  -- the branch of `runRelayServer` with Redis, after its Ping
  unfoldable pub redis_sources : Config → Option Error → Result Sources
  unfolding new_redis_traffic_metrics
  redis_sources cfg ping = elim (new_redis_traffic_metrics (some ping) (pos (72 * hour))) [
    | err e ↦ err (message (codes "initialize Redis traffic metrics: %w") (wrapped e end))
    | ok tm ↦ ok (record {
      gw_source = chain_sources (static_map_url_source cfg.domain_map ∷ redis_target_url ∷ []);
      traffic_metrics = record_traffic (some tm);
    })
  ]

  unfoldable pub uses_redis : Config → Bool
  unfolding is_empty
  uses_redis cfg = cfg.redis_enable && not (is_empty (trim_space cfg.redis_addr))

  unfoldable pub choose_sources : Config → Pings → Result Sources
  choose_sources cfg pings =
      if uses_redis cfg
      then elim (pings.at_start (redis_options cfg)) [
        | some e ↦ err (message (codes "redis ping failed: %w") (wrapped e end))
        | none ↦ redis_sources cfg (pings.for_metrics (redis_options cfg))
      ]
      else ok (record {
        gw_source = static_map_url_source cfg.domain_map;
        traffic_metrics = no_op_record_traffic;
      })

  -- `runRelayServer`, as far as the server that it starts to serve
  unfoldable pub run_relay_server : Config → Pings → Option Error → Result Server
  run_relay_server cfg pings cert =
      bind (choose_sources cfg pings) (λ sources. start (relay_runner cfg sources) cert)
