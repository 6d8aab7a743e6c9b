-- ===== src/Serve.antt =====
-- The servers as processes that run side by side: internal/runnable/grpc.go, the metrics server and
-- App.Run of pkg/ohttp-relay/app/app.go, internal/ctrl/ctrl.go and main of cmd/echo-gateway/main.go;
-- the certificate of internal/tls/tls.go and the health services.
pub mod Runs
pub mod Health
pub mod Certificate
pub mod Grpc
pub mod Metrics
pub mod Group
pub mod Signals
pub mod EchoMain
