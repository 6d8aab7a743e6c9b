-- ===== src/Tests/Serving.antt =====
-- Runs of the servers: the steps of a start, of a cancelled context and of a failure.
use ohttp_relay.Prelude.{◌≢◌, ◌≡◌, refl, true, false, none, some, inl, arith}
use ohttp_relay.Text.{codes}
use ohttp_relay.Fault.{ok, Error, message, end, err, is}
use ohttp_relay.Serve.Runs.{Runs, here, next, Settles}
use ohttp_relay.Serve.Grpc
use ohttp_relay.Serve.Grpc.Laws as GrpcLaws
use ohttp_relay.Serve.Metrics
use ohttp_relay.Serve.Metrics.Laws as MetricsLaws
use ohttp_relay.Serve.Metrics.Ending as MetricsEnding
use ohttp_relay.Serve.Signals
use ohttp_relay.Serve.EchoMain
use ohttp_relay.Serve.Group
use ohttp_relay.Serve.Group.Blame.{main_run_blames}
use ohttp_relay.App.{Pings, run_relay_server, choose_sources, uses_redis, start, relay_runner}
use ohttp_relay.Metrics.{init_metrics}
use ohttp_relay.Config.{default_config}
use ohttp_relay.Tests.Fixtures.{test_unicode}
use ohttp_relay.Serve.Group.Ending

-- A gRPC server that listens, is cancelled and stops.
abbrev grpc_cancelled : Grpc.State
grpc_cancelled = record Grpc.init { main = Grpc.serving; watcher = Grpc.waiting; ctx_done = true }

abbrev grpc_run : Runs Grpc.Step Grpc.init 2 grpc_cancelled
grpc_run = next (next here (Grpc.onward (Grpc.onward_bound (Grpc.listens refl)))) (Grpc.cancel refl)

runnable-Settles_example :
    Settles Grpc.Step Grpc.Onward Grpc.IsDone (GrpcLaws.left grpc_cancelled) grpc_cancelled
runnable-Settles_example = GrpcLaws.runnable-Settles grpc_run (inl refl)

-- A metrics server that fails, and has closed errChan before it is read.
abbrev down : Error
down = message (codes "address in use") end

abbrev metrics_failed : Metrics.State
metrics_failed = record Metrics.init {
  listener = Metrics.finished;
  buffer = some down;
  closed = true;
}

abbrev metrics_failure : Runs Metrics.Step Metrics.init 3 metrics_failed
unfolding is
metrics_failure =
    next
      (next (next here (Metrics.listen_fails down refl refl))
        (Metrics.bound (Metrics.push down refl refl refl)))
      (Metrics.bound (Metrics.close refl))

closed_never_read_example : (e : Error) × (metrics_failed.buffer ≡ some e)
closed_never_read_example = MetricsLaws.closed_never_read metrics_failure refl refl

-- A metrics server that is cancelled and shut down.
abbrev metrics_down : Metrics.State
metrics_down = record Metrics.init {
  main = Metrics.returned none;
  ctx_done = true;
  shutdown = true;
}

abbrev metrics_shutdown : Runs Metrics.Step Metrics.init 3 metrics_down
metrics_shutdown =
    next (next (next here (Metrics.cancel refl)) (Metrics.bound (Metrics.choose_done refl refl)))
      (Metrics.bound (Metrics.shutdown_returns none refl))

metrics-Settles_example :
    Settles Metrics.Step Metrics.Bound Metrics.IsDone (MetricsEnding.left metrics_down) metrics_down
metrics-Settles_example = MetricsEnding.metrics-Settles metrics_shutdown (inl refl)

-- Two signals in a row, before the goroutine has received one.
abbrev two_signals : Signals.State
two_signals = record { handler = Signals.second; queue = 1; sent = 2; ctx_done = true }

abbrev signals_run : Runs Signals.Step Signals.init 4 two_signals
signals_run =
    next
      (next (next (next here Signals.signal) Signals.signal)
        (Signals.receives (Signals.receive_first refl (omega arith))))
      (Signals.receives (Signals.cancels refl))

signals_answered_example : Signals.Answers two_signals
signals_answered_example = Signals.signals_answered signals_run

-- The echo gateway with a signal, which it answers by a shutdown.
abbrev one_signal : Signals.State
one_signal = record Signals.init { queue = 1; sent = 1 }

abbrev received : Signals.State
received = record { handler = Signals.cancelling; queue = 0; sent = 1; ctx_done = false }

abbrev cancelled : Signals.State
cancelled = record received { handler = Signals.second; ctx_done = true }

still_running :
    (m : EchoMain.Main) (g : Signals.State)
    → m ≢ EchoMain.returned
    → m ≢ EchoMain.fatal
    → g.handler ≢ Signals.exited
    → EchoMain.IsRunning (record EchoMain.init { main = m; signals = g })
still_running m g r f e = record {
  not_returned = r;
  not_fatal = f;
  not_failed = λ h. absurd (cc h);
  not_exited = e;
}

waiting :
    (g : Signals.State)
    → g.handler ≢ Signals.exited
    → EchoMain.IsRunning (record EchoMain.init { signals = g })
waiting g e = still_running EchoMain.awaiting g (λ h. absurd (cc h)) (λ h. absurd (cc h)) e

abbrev gateway_stopped : EchoMain.State
gateway_stopped = record EchoMain.init { main = EchoMain.returned; signals = cancelled }

gateway_run : Runs EchoMain.Step EchoMain.init 5 gateway_stopped
gateway_run =
    next
      (next
        (next
          (next
            (next here (
              EchoMain.signals_move {g = one_signal} (waiting Signals.init (λ h. absurd (cc h)))
                Signals.signal))
            (EchoMain.signals_move {g = received} (waiting one_signal (λ h. absurd (cc h)))
              (Signals.receives (Signals.receive_first refl (omega arith)))))
          (EchoMain.signals_move {g = cancelled} (waiting received (λ h. absurd (cc h)))
            (Signals.receives (Signals.cancels refl))))
        (EchoMain.context_done (waiting cancelled (λ h. absurd (cc h))) refl refl))
      (EchoMain.shutdown_succeeds
        (still_running EchoMain.shutting cancelled (λ h. absurd (cc h)) (λ h. absurd (cc h))
          (λ h. absurd (cc h)))
        refl)

echo_main-Ends_example : EchoMain.Ends gateway_stopped
echo_main-Ends_example = EchoMain.echo_main-Ends gateway_run

-- The relay server cannot be set up: the group is cancelled, and Run returns.
abbrev refused : Group.State
refused = Group.init (err down)

abbrev group_over : Group.State
group_over = record {
  main = Group.finished (some down);
  health = record Grpc.init { main = Grpc.returned (some (Grpc.listen_error down)) };
  metrics = metrics_down;
  relay = record Grpc.init { main = Grpc.returned (some down) };
  first = some down;
  cancelled = true;
}

group_run : Runs (Group.Step false) refused 6 group_over
unfolding Group.relay_start
group_run =
    next
      (next
        (next
          (next
            (next (next here (Group.bound (Group.notes down refl (Group.relay_failed refl) refl)))
              (Group.bound (Group.health_goes (Grpc.listen_fails down refl))))
            (Group.bound (Group.tell_metrics refl refl)))
          (Group.bound (Group.metrics_goes (Metrics.choose_done refl refl))))
        (Group.bound (Group.metrics_goes (Metrics.shutdown_returns none refl))))
      (Group.bound (
        Group.waits refl (record {
          health_result = some (Grpc.listen_error down);
          health_over = refl;
          health_noted = (down, refl);
          metrics_result = none;
          metrics_over = refl;
          metrics_noted = tt;
          relay_result = some down;
          relay_over = refl;
          relay_noted = (down, refl);
        })))

abbrev pings : Pings
pings = record { at_start = λ options. none; for_metrics = λ options. none }

main_up :
    Group.main_run (ok default_config) (λ c. Group.run none (λ _. none) c pings (some down))
    ≡ ok refused
unfolding Group.main_run Group.run init_metrics run_relay_server choose_sources uses_redis start
    relay_runner
main_up = refl

main_run_blames_example :
    (e : Error) × (some down ≡ some e)
    × Group.Fails group_over e
    × (Group.exit_status (some down) ≡ 1)
main_run_blames_example =
    main_run_blames (ok default_config) none (λ _. none) pings (some down) refused (some down)
      main_up group_run refl

run-Settles_example :
    Settles (Group.Step false) Group.Onward Group.IsDone (Ending.left group_over) group_over
run-Settles_example = Ending.run-Settles (err down) group_run refl
