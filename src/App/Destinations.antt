-- ===== src/App/Destinations.antt =====
-- Which requests a run of the relay makes: to the gateways that its configuration names, and to Redis
-- only if it is in use.
use ohttp_relay.Prelude.{◌≡◌, refl, ◌⊎◌, inl, inr, true, Option, List, [], ◌++◌, All}
use ohttp_relay.Text.{Text, Unicode}
use ohttp_relay.Fault.{Error, ok}
use ohttp_relay.Exec.{Effect, Env, http_do, redis_hget, redis_exec}
use ohttp_relay.Gateway.{ohttp_configs_path}
use ohttp_relay.Relay.{relay_request}
use ohttp_relay.Config.{Config}
use ohttp_relay.Handlers.Server.{Server}
use ohttp_relay.Handlers.Process.{Input, process}
use ohttp_relay.App.{Pings, uses_redis, run_relay_server}
use ohttp_relay.App.Wiring.{IsGatewayOf}
use ohttp_relay.App.Effects.{
  Unmeasured-Measures, Unmeasured-Closed, Chunks-any, process_of_server-Does,
}

-- A request is made to the gateway of some host, or to the key configuration of that gateway, and
-- Redis is asked or written only if the configuration uses it.
abbrev pub IsDestined : ⦃u : Unicode⦄ → Env → Config → Effect → Type 0
IsDestined env cfg (http_do req) =
    (host : Text) × (url : Text) × IsGatewayOf env cfg host url
    × ((req.url ≡ url) ⊎ (req.url ≡ url ++ ohttp_configs_path))
IsDestined env cfg (redis_hget key field) = uses_redis cfg ≡ true
IsDestined env cfg (redis_exec pipe) = uses_redis cfg ≡ true
IsDestined env cfg _ = Unit

-- Whatever the messages of a stream, the started server gives Client.Do only requests to URLs that a
-- mapping or Redis gives for some host, or to the path of the key configuration after such a URL; the
-- redirects that the client follows on its own are not among these requests. Redis counts, and is
-- asked or written at all, only if the configuration uses it.
pub process-IsDestined :
    ⦃u : Unicode⦄ (env : Env) (cfg : Config) (pings : Pings) (cert : Option Error) (s : Server)
    (inputs : List Input)
    → run_relay_server cfg pings cert ≡ ok s
    → All (IsDestined env cfg) (process s inputs env []).1
unfolding relay_request
process-IsDestined env cfg pings cert s inputs started =
    process_of_server-Does {I = λ _. Unit} {C = λ _. Unit} cfg pings cert started
      (Unmeasured-Measures (λ _ _ _. tt))
      (record {
        gateway_total = λ _ _. tt;
        gateway_duration = λ _ _. tt;
        asked = λ on _ _. on;
        executed = λ on _. on;
        relayed = λ st url _ _ _ gateway. (st.host, url, gateway, inl refl);
        fetched = λ host url gateway. (host, url, gateway, inr refl);
      })
      (Unmeasured-Closed s (λ _ _ _. tt) (λ _ _ _. tt) (λ _. tt) (λ _ _. tt) (λ _ _. tt)) inputs
      (Chunks-any inputs) tt
