-- ===== src/Lib.antt =====
-- A model of the OHTTP relay, an Envoy external processor that forwards opaque request bodies to
-- the gateway of their host (RFC 9458), with the tools that its repository keeps beside it.
--
-- The parts and where they are modelled:
--   Text, Text/Decimal      package strings and the verb %d, as far as the source calls them
--   Fault                   Go errors: sentinels, formats with their arguments, gRPC status errors
--   Http, Envoy             the messages of net/http and of Envoy's ext_proc protocol
--   Exec, Exec/Does         code with effects, and rules for what it does to the world: which effects,
--                           or which sequences of them
--   Metrics                 pkg/ohttp-relay/metrics/metrics.go
--   Traffic                 pkg/ohttp-relay/traffic/metrics.go
--   Gateway                 pkg/ohttp-relay/gateway (source.go, static.go, redis.go)
--   Relay                   pkg/ohttp-relay/relay/relayer.go; Relay/Outcomes: what a call can end in
--   Handlers                pkg/ohttp-relay/handlers/server.go; Process is the loop of one stream
--   Config                  pkg/ohttp-relay/config/config.go
--   App                     runRelayServer of pkg/ohttp-relay/app/app.go, and the runner of
--                           pkg/ohttp-relay/server/runserver.go; App/Delivery: a whole request;
--                           App/Accounts and App/Booking: what the metrics and Redis see of a run
--   Keys                    pkg/echo-gateway/keyconfig/key_config.go; Keys/Files and Keys/Frame: the
--                           key pair on disk and the key configuration endpoint of
--                           cmd/echo-gateway/main.go; Keys/Fetch: fetchKeyConfig of
--                           cmd/test-client/main.go
--   App/Logging             New and initLogging of pkg/ohttp-relay/app/app.go, with the logger of
--                           internal/ctrl/ctrl.go
--   Serve                   the servers as processes: Grpc is internal/runnable/grpc.go, Metrics and
--                           Group are runMetricsServer and Run of pkg/ohttp-relay/app/app.go, with
--                           cmd/ohttp-relay/main.go, Signals is internal/ctrl/ctrl.go,
--                           EchoMain the server of main of cmd/echo-gateway/main.go;
--                           Certificate is internal/tls/tls.go, and Health the health services of
--                           cmd/ohttp-relay/health.go and app.go
--   Echo                    the handlers of cmd/echo-gateway/main.go; Echo/Setup: its main up to the
--                           start of the server
--   Client                  the transport of cmd/test-client/main.go; Client/Verdict and Client/Main:
--                           the tests of its main, and main from its flags to its exit
--   Tests                   tests by evaluation, and the theorems at concrete inputs
--
-- Envoy sends the messages of one HTTP request over a stream. Process (Handlers.Process.process)
-- keeps the stream's state, checks the headers, collects the body up to a limit, hands it to the
-- relayer (Relay.relay) or a well-known path to the key configuration source
-- (Gateway.http_key_config_source), and answers with immediate responses. Both look up the gateway
-- of the host in a source (Gateway.chain_sources of a static map and of Redis), and
-- App.run_relay_server puts the parts together from the configuration.
--
-- Conventions. Names are the source's in snake case. A string is the list of its code points and
-- a body the list of its bytes; package unicode beyond ASCII is an instance argument, with the law
-- that lowering a letter twice is lowering it once. Errors keep their format and arguments
-- unrendered. An action of type Exec takes the world (Exec.Env: the HTTP client, Redis, the gRPC
-- stream, the clock, the status numbers of Envoy's API) and the trace of effects so far, and returns
-- its result and the longer trace; an answer of the world may depend on the whole trace. Process
-- takes the list of what its rounds meet (a done context, or what Recv returns), so the loop is
-- structural and needs no fuel; after the last input it waits. Decimal printing runs on fuel n + 1
-- for the number n, which has fewer digits. int64 sums are 64-bit patterns with their wrap-around;
-- max_request_body_size is a signed integer.
--
-- The servers run side by side. Each is a machine whose steps are its communications with the
-- others (Serve), and a run is a sequence of such steps in any order (Serve.Runs.Runs). A step
-- that is bound to happen, as the code or a documented library makes it, is told from one that
-- may happen or not, such as a failure or a signal, and from the end of the calls that are
-- pending when a gRPC server is stopped gracefully, for which the server waits. A run has any
-- finite length, so there is no fuel; the functions `left` of the modules under Serve count
-- what is still to come of a machine.
--
-- Not modelled: log lines but that of an error response, and what the commands print; contexts
-- beyond their end in Process and in the answers of the services; the conversion of durations
-- into float seconds; the redirects that net/http follows inside Client.Do, for which the relay
-- sets no CheckRedirect: a request of the model is one that is given to Client.Do, and what the
-- client sends after a redirect is no effect; what makes the calls end that a graceful stop
-- waits for. Libraries are parameters where they are met: package flag, zap and logr, the mux
-- and the client of net/http, the json coder, and package ohttp, behind the handler of the echo
-- gateway and the transport of the test client.
pub mod Prelude
pub mod Text
pub mod Fault
pub mod Http
pub mod Envoy
pub mod Exec
pub mod Metrics
pub mod Traffic
pub mod Gateway
pub mod Relay
pub mod Handlers
pub mod Config
pub mod Keys
pub mod App
pub mod Serve
pub mod Echo
pub mod Client
pub mod Tests
