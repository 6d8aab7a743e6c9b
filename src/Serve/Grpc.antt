-- ===== src/Serve/Grpc.antt =====
-- internal/runnable/grpc.go: the function that GRPCServer returns, and the goroutine that it starts,
-- a communication at a time. net.Listen and the gRPC server are the environment's. Of the server
-- this is used, as it is documented: Serve returns nil or ErrServerStopped only once the server has
-- been stopped; GracefulStop stops it, takes no more calls and blocks until the pending calls have
-- ended, and Serve returns no sooner. A pending call, such as a stream of Process, ends when Envoy or
-- its handler ends it, and not by the context of the runnable: nothing here makes it end.
pub mod Laws
use ohttp_relay.Prelude.{◌≡◌, Bool, true, false, Option, none, some, ◌⊎◌}
use ohttp_relay.Text.{codes}
use ohttp_relay.Fault.{Error, message, end, wrapped, equals, server_stopped}

-- where the function stands
pub data Main : Type 0 where
  starting serving : Main
  returned : Option Error → Main

-- where its goroutine stands: not there yet, in its select, in GracefulStop, or over
pub data Watcher : Type 0 where
  absent waiting stopping gone : Watcher

-- `stopped` is whether GracefulStop has been called, and `drained` whether the calls that were pending
-- then have ended.
pub record State : Type 0 where
  pub main : Main
  pub watcher : Watcher
  pub ctx_done : Bool
  pub done_closed : Bool
  pub stopped : Bool
  pub drained : Bool

abbrev pub init : State
init = record {
  main = starting;
  watcher = absent;
  ctx_done = false;
  done_closed = false;
  stopped = false;
  drained = false;
}

abbrev pub serve_error : Error → Error
serve_error e = message (codes "gRPC server failed - %w") (wrapped e end)

-- the error that the function makes of that of Serve
unfoldable pub report : Option Error → Option Error
report none = none
report (some e) = elim (equals server_stopped e) [ true ↦ none | false ↦ some (serve_error e) ]

-- Serve has returned: the deferred close, and the result.
abbrev pub finish : State → Option Error → State
finish s r = record s { main = returned (report r); done_closed = true }

abbrev pub listen_error : Error → Error
listen_error e = message (codes "gRPC server failed to listen - %w") (wrapped e end)

-- The steps that are bound to happen.
pub data Bound (s : State) : State → Type 0 where
  listen_fails :
      (e : Error)
      → s.main ≡ starting
      → Bound s (record s { main = returned (some (listen_error e)) })
  listens : s.main ≡ starting → Bound s (record s { main = serving; watcher = waiting })
  context_done :
      s.watcher ≡ waiting
      → s.ctx_done ≡ true
      → Bound s (record s { watcher = stopping; stopped = true })
  channel_done : s.watcher ≡ waiting → s.done_closed ≡ true → Bound s (record s { watcher = gone })
  stop_returns : s.watcher ≡ stopping → s.drained ≡ true → Bound s (record s { watcher = gone })
  serve_stops :
      (r : Option Error)
      → s.main ≡ serving
      → s.stopped ≡ true
      → s.drained ≡ true
      → Bound s (finish s r)

-- The pending calls of a server that is stopped end, if they do, or a step is bound to happen.
pub data Onward (s : State) : State → Type 0 where
  onward_bound : {u : State} → Bound s u → Onward s u
  calls_end : s.stopped ≡ true → s.drained ≡ false → Onward s (record s { drained = true })

-- Serve may fail at any time, and the context may be cancelled.
pub data Step (s : State) : State → Type 0 where
  onward : {u : State} → Onward s u → Step s u
  serve_fails :
      (e : Error) → s.main ≡ serving → equals server_stopped e ≡ false → Step s (finish s (some e))
  cancel : s.ctx_done ≡ false → Step s (record s { ctx_done = true })

-- The function has returned and has left no goroutine behind.
pub data IsDone (s : State) : Type 0 where
  never_listened : (r : Option Error) → s.main ≡ returned r → s.watcher ≡ absent → IsDone s
  all_returned : (r : Option Error) → s.main ≡ returned r → s.watcher ≡ gone → IsDone s
