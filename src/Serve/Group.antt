-- ===== src/Serve/Group.antt =====
-- pkg/ohttp-relay/app/app.go: App.Run, the health server, the metrics server and the relay server in
-- one errgroup. Of the group this is used, as it is documented: the first function that returns an
-- error cancels the context of the group; Wait returns when all functions have returned, with that
-- first error, or nil, and cancels the context too. `cancellable` says whether the context that Run is given can ever be done;
-- cmd/ohttp-relay/main.go gives it context.Background(), which cannot.
pub mod Laws
pub mod Ending
pub mod Blame
use ohttp_relay.Prelude.{ℕ, ◌≡◌, ◌⊎◌, Bool, true, false, Option, none, some, List}
use ohttp_relay.Text.{Unicode, codes}
use ohttp_relay.Fault.{Error, message, end, wrapped, Result, ok, err, bind}
use ohttp_relay.Metrics.{Creation, init_metrics}
use ohttp_relay.Config.{Config, load}
use ohttp_relay.Handlers.Server.{Server}
use ohttp_relay.App.{Pings, run_relay_server}
use ohttp_relay.Serve.Grpc
use ohttp_relay.Serve.Metrics

-- where Run stands: in Wait, or over
pub data Main : Type 0 where
  in_wait : Main
  finished : Option Error → Main

-- `first` and `cancelled` are the first error and the context of the group.
pub record State : Type 0 where
  pub main : Main
  pub health : Grpc.State
  pub metrics : Metrics.State
  pub relay : Grpc.State
  pub first : Option Error
  pub cancelled : Bool

-- The relay server, up to the call of its runnable: runRelayServer and Start may fail before it.
unfoldable pub relay_start : Result Server → Grpc.State
relay_start (ok s) = Grpc.init
relay_start (err e) = record Grpc.init { main = Grpc.returned (some e) }

-- when the group waits
abbrev pub init : Result Server → State
init server = record {
  main = in_wait;
  health = Grpc.init;
  metrics = Metrics.init;
  relay = relay_start server;
  first = none;
  cancelled = false;
}

abbrev metrics_ready : Option Error → Result (Unit {0})
metrics_ready none = ok tt
metrics_ready (some e) = err (message (codes "init metrics: %w") (wrapped e end))

-- App.Run up to Wait, where InitMetrics may end it
unfoldable pub run :
    ⦃u : Unicode⦄
    → Option Error
    → (Creation → Option Error)
    → Config
    → Pings
    → Option Error
    → Result State
run exporter meter cfg pings cert =
    bind (metrics_ready (init_metrics exporter meter).0)
      (λ _. ok (init (run_relay_server cfg pings cert)))

abbrev loaded : Result Config → Result Config
loaded (ok cfg) = ok cfg
loaded (err e) = err (message (codes "failed to load config: %w") (wrapped e end))

-- `run` of cmd/ohttp-relay/main.go, up to Wait; `app_run` is App.Run under a configuration
unfoldable pub main_run : Result Config → (Config → Result State) → Result State
main_run cfg app_run = bind (loaded cfg) app_run

-- the status with which `main` of cmd/ohttp-relay/main.go ends the process
abbrev pub exit_status : Option Error → ℕ
exit_status none = 0
exit_status (some e) = 1

-- a function of the group has returned this error
pub data Fails (s : State) (e : Error) : Type 0 where
  health_failed : s.health.main ≡ Grpc.returned (some e) → Fails s e
  metrics_failed : s.metrics.main ≡ Metrics.returned (some e) → Fails s e
  relay_failed : s.relay.main ≡ Grpc.returned (some e) → Fails s e

-- The function has returned, and its error, if it is one, has been taken note of.
abbrev pub IsNoted : Option Error → Option Error → Type 0
IsNoted none first = Unit
IsNoted (some e) first = (f : Error) × (first ≡ some f)

pub record AllReturned (s : State) : Type 0 where
  pub health_result : Option Error
  pub health_over : s.health.main ≡ Grpc.returned health_result
  pub health_noted : IsNoted health_result s.first
  pub metrics_result : Option Error
  pub metrics_over : s.metrics.main ≡ Metrics.returned metrics_result
  pub metrics_noted : IsNoted metrics_result s.first
  pub relay_result : Option Error
  pub relay_over : s.relay.main ≡ Grpc.returned relay_result
  pub relay_noted : IsNoted relay_result s.first

-- The steps that are bound to happen.
pub data Bound (s : State) : State → Type 0 where
  health_goes : {h : Grpc.State} → Grpc.Bound s.health h → Bound s (record s { health = h })
  metrics_goes :
      {m : Metrics.State} → Metrics.Bound s.metrics m → Bound s (record s { metrics = m })
  relay_goes : {r : Grpc.State} → Grpc.Bound s.relay r → Bound s (record s { relay = r })
  tell_health :
      s.cancelled ≡ true
      → s.health.ctx_done ≡ false
      → Bound s (record s { health = record s.health { ctx_done = true } })
  tell_metrics :
      s.cancelled ≡ true
      → s.metrics.ctx_done ≡ false
      → Bound s (record s { metrics = record s.metrics { ctx_done = true } })
  tell_relay :
      s.cancelled ≡ true
      → s.relay.ctx_done ≡ false
      → Bound s (record s { relay = record s.relay { ctx_done = true } })
  notes :
      (e : Error)
      → s.main ≡ in_wait
      → Fails s e
      → s.first ≡ none
      → Bound s (record s { first = some e; cancelled = true })
  waits :
      s.main ≡ in_wait
      → AllReturned s
      → Bound s (record s { main = finished s.first; cancelled = true })

-- A step that is bound to happen, or the end of the calls that were pending at the stop of a server.
pub data Onward (s : State) : State → Type 0 where
  onward_bound : {u : State} → Bound s u → Onward s u
  health_calls_end :
      s.health.stopped ≡ true
      → s.health.drained ≡ false
      → Onward s (record s { health = record s.health { drained = true } })
  relay_calls_end :
      s.relay.stopped ≡ true
      → s.relay.drained ≡ false
      → Onward s (record s { relay = record s.relay { drained = true } })

-- Besides, pending calls may end, a server may fail, and the context that Run was given may be done.
pub data Step (cancellable : Bool) (s : State) : State → Type 0 where
  bound : {u : State} → Bound s u → Step cancellable s u
  health_moves :
      {h : Grpc.State}
      → Grpc.Step s.health h
      → h.ctx_done ≡ s.health.ctx_done
      → Step cancellable s (record s { health = h })
  metrics_moves :
      {m : Metrics.State}
      → Metrics.Step s.metrics m
      → m.ctx_done ≡ s.metrics.ctx_done
      → Step cancellable s (record s { metrics = m })
  relay_moves :
      {r : Grpc.State}
      → Grpc.Step s.relay r
      → r.ctx_done ≡ s.relay.ctx_done
      → Step cancellable s (record s { relay = r })
  outer_done :
      cancellable ≡ true
      → s.main ≡ in_wait
      → s.cancelled ≡ false
      → Step cancellable s (record s { cancelled = true })

-- Run has returned, and the three servers with it.
pub data IsDone (s : State) : Type 0 where
  all_over :
      (r : Option Error)
      → s.main ≡ finished r
      → Grpc.IsDone s.health
      → Metrics.IsDone s.metrics
      → Grpc.IsDone s.relay
      → IsDone s
