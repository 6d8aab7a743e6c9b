-- ===== src/App/Effects.antt =====
-- What a run of the whole relay does to the world: the walk over `Process`, for the server that
-- `runRelayServer` starts.
use ohttp_relay.Prelude.{ℕ, ◌≡◌, true, Option, List, [], ◌∷◌, ◌++◌, All}
use mathlib.Core.Path.{subst}
use mathlib.Core.Option.{some-injective}
use ohttp_relay.Traffic.{TrafficMetrics}
use ohttp_relay.Text.{Text, Bytes, Unicode}
use ohttp_relay.Fault.{Args, Error, ok, err}
use ohttp_relay.Exec.{
  Instrument, errors_total, traffic_bytes_in, traffic_bytes_out, log_error, send, active_requests,
  requests_total, request_duration, request_size_bytes, response_size_bytes, gateway_requests_total,
  gateway_request_duration, Measure, RedisCommand, Effect, Trace, Env, measure, redis_hget,
  redis_exec, http_do,
}
use ohttp_relay.Exec.Does.{
  Composes, All-Composes, Adds, Adds-pure, Adds-ask, Adds-emit, Adds-bind, Does, Any, Does-weaken,
}
use ohttp_relay.Metrics.{record_request}
use ohttp_relay.Http.{HttpResponse}
use ohttp_relay.Envoy.{request_headers, ProcessingResponse}
use ohttp_relay.Handlers.Response.{
  content_type_ohttp_res, content_type_ohttp_keys, error_response, ok_response,
}
use ohttp_relay.Gateway.{ohttp_configs_path, key_config_request}
use ohttp_relay.Gateway.Effects.{FromKeyConfig, http_key_config_source-Does}
use ohttp_relay.Relay.{relay_request}
use ohttp_relay.Relay.Effects.{relay-Does}
use ohttp_relay.Config.{Config}
use ohttp_relay.Handlers.Server.{Server, StreamState, new_server}
use ohttp_relay.Handlers.Process.{
  Input, done, received, Loop, continue, return, new_loop, rounds, deferred, conclude, process,
}
use ohttp_relay.Handlers.Effects.{IsGood, IsForwardable, Closed, ClosedTo, PermitsTo, Keeps, Chunks}
use ohttp_relay.Handlers.Effects.Rounds.{rounds-Does}
use ohttp_relay.App.{uses_redis, Pings, Sources, choose_sources, run_relay_server}
use ohttp_relay.App.Wiring.{IsGatewayOf, server_of, run_relay_server-eq, sources-Does, traffic-Does}

-- What `P` has to hold, beside the effects of the handler, for a run to stay inside it.
pub record Allows ⦃u : Unicode⦄ (env : Env) (cfg : Config) (P : Effect → Type 0)
    (I : StreamState → Type 0) : Type 0 where
  pub gateway_total :
      (m : Measure) (a : List (Text × Text)) → P (measure gateway_requests_total m a)
  pub gateway_duration :
      (m : Measure) (a : List (Text × Text)) → P (measure gateway_request_duration m a)
  pub asked : uses_redis cfg ≡ true → (key field : Text) → P (redis_hget key field)
  pub executed : uses_redis cfg ≡ true → (pipe : List RedisCommand) → P (redis_exec pipe)
  pub relayed :
      (st : StreamState) (url content_type : Text)
      → I st
      → IsForwardable content_type
      → IsGatewayOf env cfg st.host url
      → P (http_do (relay_request url st.body content_type st.http_method))
  pub fetched :
      (host url : Text)
      → IsGatewayOf env cfg host url
      → P (http_do (key_config_request (url ++ ohttp_configs_path)))

-- What `P` has to hold for the metrics of the whole stream.
pub record Measures (P : Effect → Type 0) : Type 0 where
  pub active : (m : Measure) (a : List (Text × Text)) → P (measure active_requests m a)
  pub requests : (m : Measure) (a : List (Text × Text)) → P (measure requests_total m a)
  pub durations : (m : Measure) (a : List (Text × Text)) → P (measure request_duration m a)
  pub request_sizes : (m : Measure) (a : List (Text × Text)) → P (measure request_size_bytes m a)
  pub response_sizes : (m : Measure) (a : List (Text × Text)) → P (measure response_size_bytes m a)

-- Every measurement is in `P`.
abbrev pub Unmeasured : (Effect → Type 0) → Type 0
Unmeasured P = (i : Instrument) (m : Measure) (a : List (Text × Text)) → P (measure i m a)

pub Unmeasured-Measures : {P : Effect → Type 0} → Unmeasured P → Measures P
Unmeasured-Measures f = record {
  active = f active_requests;
  requests = f requests_total;
  durations = f request_duration;
  request_sizes = f request_size_bytes;
  response_sizes = f response_size_bytes;
}

-- The closure of a set that holds every measurement and log line, with no invariant.
pub Unmeasured-Closed :
    {env : Env} {P : Effect → Type 0} (s : Server)
    → Unmeasured P
    → ((code : ℕ) (f : Text) (a : Args) → P (log_error code f a))
    → ((code : ℕ) → P (send (error_response code)))
    → ((resp : HttpResponse)
        → IsGood env resp
        → P (send (ok_response content_type_ohttp_res resp.body)))
    → ((b : Bytes) → FromKeyConfig env (ok b) → P (send (ok_response content_type_ohttp_keys b)))
    → Closed env P (λ _. Unit) (λ _. Unit) s
Unmeasured-Closed s f logs errors opaques keys = record {
  bytes_in = f traffic_bytes_in;
  bytes_out = f traffic_bytes_out;
  errors = f errors_total;
  logged = logs;
  error_sent = errors;
  opaque_sent = opaques;
  keys_sent = keys;
  captured = λ _ _ _. tt;
  configured = λ _ _. tt;
  cleared = λ _ _. tt;
  appended = λ _ _ _ _ _. tt;
}

pub Chunks-any : (inputs : List Input) → All (Chunks (λ _. Unit)) inputs
Chunks-any [] = tt
Chunks-any (done e ∷ inputs) = (tt, Chunks-any inputs)
Chunks-any (received (err e) ∷ inputs) = (tt, Chunks-any inputs)
Chunks-any (received (ok (request_headers h)) ∷ inputs) = (tt, Chunks-any inputs)
Chunks-any (received (ok req) ∷ inputs) = (tt, Chunks-any inputs)

pub Measures-each :
    {P : Effect → Type 0} → Measures P → Measures (λ e. (t : Trace) → All P (e ∷ []))
Measures-each m = record {
  active = λ n a t. (m.active n a, tt);
  requests = λ n a t. (m.requests n a, tt);
  durations = λ n a t. (m.durations n a, tt);
  request_sizes = λ n a t. (m.request_sizes n a, tt);
  response_sizes = λ n a t. (m.response_sizes n a, tt);
}

module _ ⦃u : Unicode⦄ {env : Env} {M : Trace → Trace → Type 0} ⦃composes : Composes M⦄
    (m : Measures (λ e. (t : Trace) → M t (e ∷ []))) where
  deferred-Adds : (start : ℕ) (l : Loop) → Adds env M Any (deferred start l)
  unfolding deferred record_request
  deferred-Adds start l = Adds-bind {Q = Any} (Adds-ask _ (λ t. tt)) λ stop _.
      Adds-bind {Q = Any}
        (Adds-bind {Q = Any} (Adds-emit _ (m.requests _ _)) λ _ _.
          Adds-bind {Q = Any} (Adds-emit _ (m.durations _ _)) λ _ _.
            Adds-bind {Q = Any} (Adds-emit _ (m.request_sizes _ _))
              (λ _ _. Adds-emit _ (m.response_sizes _ _)))
        (λ _ _. Adds-emit _ (m.active _ _))

  pub process-Adds :
      (s : Server) (inputs : List Input)
      → Adds env M Any (rounds s inputs new_loop)
      → Adds env M Any (process s inputs)
  unfolding process conclude
  process-Adds s inputs d = Adds-bind {Q = Any} (Adds-emit _ (m.active _ _)) λ _ _.
      Adds-bind {Q = Any} (Adds-ask _ (λ t. tt)) λ start _. Adds-bind d (elim [
        | continue l ↦ λ _. Adds-pure _ tt
        | return l e ↦ λ _. Adds-bind {Q = Any} (deferred-Adds start l) (λ _ _. Adds-pure _ tt)
      ])

module _ ⦃u : Unicode⦄ {env : Env} {P : Effect → Type 0} {I : StreamState → Type 0}
    {C : Bytes → Type 0} (cfg : Config) (pings : Pings) where
  pub server-Permits :
      {R : ProcessingResponse → Type 0} (sources : Sources)
      → choose_sources cfg pings ≡ ok sources
      → Allows env cfg P I
      → ClosedTo env P R I C (server_of cfg sources)
      → PermitsTo env P R I C (server_of cfg sources)
  unfolding new_server
  server-Permits sources chosen a c = record {
    closed = c;
    relays = λ st ct i full.
        relay-Does
          (record {
            total = a.gateway_total;
            duration = a.gateway_duration;
            call = λ url. a.relayed st url ct i full;
          })
          sources.gw_source st.host (sources-Does st.host cfg pings a.asked chosen);
    configs = λ host.
        http_key_config_source-Does sources.gw_source host (a.fetched host)
          (sources-Does host cfg pings a.asked chosen);
    records = λ record_traffic host x y e.
        subst (λ (r : TrafficMetrics). Does env P Any (r host x y)) (some-injective _ _ e)
          (traffic-Does host cfg pings x y a.executed chosen);
  }

  -- The rounds of a server that the relay starts stay inside a closed set of effects.
  pub rounds_of_server-Does :
      (cert : Option Error) {s : Server}
      → run_relay_server cfg pings cert ≡ ok s
      → Allows env cfg P I
      → Closed env P I C s
      → (inputs : List Input) (l : Loop) → All (Chunks C) inputs
      → I l.st
      → Does env P (Keeps I) (rounds s inputs l)
  rounds_of_server-Does cert {s} started a c =
      let (sources, chosen, e) = run_relay_server-eq cfg pings cert started in
      rounds-Does (rw e (server-Permits sources chosen a (rw e at c)))

  -- So does the whole run, from the empty trace.
  pub process_of_server-Does :
      (cert : Option Error) {s : Server}
      → run_relay_server cfg pings cert ≡ ok s
      → Measures P
      → Allows env cfg P I
      → Closed env P I C s
      → (inputs : List Input) → All (Chunks C) inputs
      → I new_loop.st
      → All P (process s inputs env []).1
  process_of_server-Does cert {s} started m a c inputs chunks i =
      let d = process-Adds (Measures-each m) s inputs (
        Does-weaken (rounds_of_server-Does cert started a c inputs new_loop chunks i)
          (λ _ _. tt)) in
      let (added, e, p, _) = d.at [] in rw e p
