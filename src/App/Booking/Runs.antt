-- ===== src/App/Booking/Runs.antt =====
-- The started server with Redis in use: its traffic is booked, whatever its stream is.
use ohttp_relay.Prelude.{
  ◌≡◌, refl, ◌∙◌, inl, inr, true, Option, none, some, List, [], ◌∷◌, ◌++◌, ℤ, pos, ◌*◌, arith,
  append_assoc, Option-cases,
}
use ohttp_relay.Text.{Text, codes, text_eq, Unicode}
use ohttp_relay.Fault.{Error, ok}
use ohttp_relay.Exec.{
  Env, Trace, measure, count, redis_exec, traffic_bytes_in, traffic_bytes_out, hincrby, expire,
  ◌>>=◌, ◌>>◌,
}
use ohttp_relay.Exec.Does.{All-Composes, Adds, Adds-weaken, Does, Does-Adds, Any}
use ohttp_relay.Metrics.{record_traffic_io}
use ohttp_relay.Traffic.{hour, RedisTrafficMetrics, generate_key, run_pipeline, record_traffic}
use ohttp_relay.Relay.Effects.{relay-Does}
use ohttp_relay.Gateway.Effects.{Reaches, http_key_config_source-Does}
use ohttp_relay.Handlers.Server.{Server, new_server, record_host_traffic}
use ohttp_relay.Handlers.Process.{Input, new_loop, process}
use ohttp_relay.Handlers.Effects.{Within}
use ohttp_relay.Handlers.Effects.Rounds.{rounds-Adds}
use ohttp_relay.Config.{Config}
use ohttp_relay.App.{
  uses_redis, Pings, Sources, choose_sources, run_relay_server, redis_sources, redis_options,
}
use ohttp_relay.App.Wiring.{server_of, run_relay_server-eq, sources_with, sources-Does, IsGatewayOf}
use ohttp_relay.App.Effects.{Chunks-any, process-Adds}
use ohttp_relay.App.Booking.{IsBooked, IsBooked-Composes, IsPlain, plain-IsBooked}

abbrev pub redis_metrics : RedisTrafficMetrics
redis_metrics = record { rdb = true; ttl = pos (72 * hour) }

-- The traffic of a response is counted, and then sent to Redis.
traffic-IsBooked :
    (env : Env) (host : Text) (a b : ℤ)
    → Adds env (IsBooked env) Any (
        record_traffic_io host a b
        >> record_host_traffic (some (record_traffic (some redis_metrics))) host a b)
unfolding record_traffic_io record_host_traffic record_traffic run_pipeline ◌>>=◌ text_eq
traffic-IsBooked env host a b = record {
  at = λ t.
      let i = measure traffic_bytes_in (count a) ((codes "host", host) ∷ []) in
      let o = measure traffic_bytes_out (count b) ((codes "host", host) ∷ []) in
      let now : Trace = (t ++ i ∷ []) ++ o ∷ [] in
      let key = generate_key host (env.utc now) in
      let x = redis_exec (
        hincrby key (codes "bytes_in") a
        ∷ hincrby key (codes "bytes_out") b
        ∷ expire key (pos (72 * hour))
        ∷ []) in
      (
        i ∷ o ∷ x ∷ [],
        append_assoc (t ++ i ∷ []) (o ∷ []) (x ∷ []) ∙ append_assoc t (i ∷ []) (o ∷ x ∷ []),
        record { bytes_in = (refl, refl, tt); bytes_out = (refl, refl, tt) },
        tt,
      );
}

module _ ⦃u : Unicode⦄ where
  redis_ready :
      (cfg : Config) (ping : Option Error) {sources : Sources}
      → redis_sources cfg ping ≡ ok sources
      → sources ≡ sources_with cfg redis_metrics
  unfolding redis_sources
  redis_ready cfg none h = ground arith
  redis_ready cfg (some e) h = absurd (ground arith)

  redis_chosen :
      (cfg : Config) (pings : Pings) {sources : Sources}
      → uses_redis cfg ≡ true
      → choose_sources cfg pings ≡ ok sources
      → sources ≡ sources_with cfg redis_metrics
  unfolding choose_sources
  redis_chosen cfg pings on h = elim (Option-cases (pings.at_start (redis_options cfg))) [
    | inl up ↦ redis_ready cfg (pings.for_metrics (redis_options cfg)) (ground arith)
    | inr (e, down) ↦ absurd (ground arith)
  ]

  module _ (env : Env) (cfg : Config) (pings : Pings) (on : uses_redis cfg ≡ true) where
    source-IsPlain :
        {sources : Sources} (host : Text)
        → choose_sources cfg pings ≡ ok sources
        → Does env IsPlain (Reaches (IsGatewayOf env cfg host)) (sources.gw_source host)
    source-IsPlain host chosen = sources-Does host cfg pings (λ _ key field. tt) chosen

    server-Within :
        {sources : Sources}
        → choose_sources cfg pings ≡ ok sources
        → Within env (IsBooked env) (λ _. Unit) (λ _. Unit) (λ _. Unit) (server_of cfg sources)
    unfolding new_server
    server-Within {sources} chosen = record {
      traffic = λ host a b. rw (redis_chosen cfg pings on chosen) (traffic-IsBooked env host a b);
      errors = λ m a t. plain-IsBooked env t _ (tt, tt);
      logged = λ code f a t. plain-IsBooked env t _ (tt, tt);
      error_sent = λ _. tt;
      opaque_sent = λ _ _. tt;
      keys_sent = λ _ _. tt;
      captured = λ _ _ _. tt;
      configured = λ _ _. tt;
      cleared = λ _ _. tt;
      appended = λ _ _ _ _ _. tt;
      relays = λ st ct i full. Does-Adds (plain-IsBooked env) (
          relay-Does (record { total = λ _ _. tt; duration = λ _ _. tt; call = λ _ _. tt })
            sources.gw_source st.host (source-IsPlain st.host chosen));
      configs = λ host. Does-Adds (plain-IsBooked env) (
          http_key_config_source-Does sources.gw_source host (λ _ _. tt)
            (source-IsPlain host chosen));
    }

  -- If Redis is in use, then in every run of the started server, what the traffic counters count for a
  -- host, into the relay and out of it, is sent to Redis to be added: the same amounts in the same
  -- order, and no others, each under the key of that host and of the UTC hour that the clock has when
  -- it is sent.
  pub process-IsBooked :
      (env : Env) (cfg : Config) (pings : Pings) (cert : Option Error) (s : Server)
      (inputs : List Input)
      → run_relay_server cfg pings cert ≡ ok s
      → uses_redis cfg ≡ true
      → IsBooked env [] (process s inputs env []).1
  process-IsBooked env cfg pings cert s inputs started on =
      let (sources, chosen, e) = run_relay_server-eq cfg pings cert started in
      let w = server-Within env cfg pings on chosen in
      let d =
        process-Adds
          (record {
            active = λ _ _ t. plain-IsBooked env t _ (tt, tt);
            requests = λ _ _ t. plain-IsBooked env t _ (tt, tt);
            durations = λ _ _ t. plain-IsBooked env t _ (tt, tt);
            request_sizes = λ _ _ t. plain-IsBooked env t _ (tt, tt);
            response_sizes = λ _ _ t. plain-IsBooked env t _ (tt, tt);
          })
          (server_of cfg sources) inputs
          (Adds-weaken
            (rounds-Adds w (λ r _ t. plain-IsBooked env t _ (tt, tt)) inputs new_loop
              (Chunks-any inputs) tt)
            (λ _ _. tt)) in
      rw e (let (added, grown, booked, _) = d.at [] in rw grown booked)
