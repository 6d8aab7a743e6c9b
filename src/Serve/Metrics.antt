-- ===== src/Serve/Metrics.antt =====
-- pkg/ohttp-relay/app/app.go: `runMetricsServer`, with its goroutine and the channel errChan between
-- them, a communication at a time. The HTTP server is the environment's. Of it this is used, as it
-- is documented: ListenAndServe always returns an error, which is ErrServerClosed only after Shutdown
-- has been called, and it does return then; Shutdown returns, at the latest with its context.
pub mod Laws
pub mod Ending
use ohttp_relay.Prelude.{
  ℤ, pos, negsuc, ◌+◌, ◌∷◌, ◌≡◌, ◌++◌, Bool, true, false, Option, none, some, if◌then◌else◌,
}
use ohttp_relay.Text.{Text, Unicode, codes, is_empty, trim_space}
use ohttp_relay.Text.Decimal.{decimal}
use ohttp_relay.Fault.{Error, sentinel, message, end, wrapped, is, server_closed}
use ohttp_relay.Config.{Config}

-- fmt.Sprintf(":%d", port)
unfoldable pub port_address : ℤ → Text
port_address (pos n) = b':' ∷ decimal n
port_address (negsuc n) = b':' ∷ b'-' ∷ decimal (n + 1)

-- the address of the metrics server
unfoldable pub metrics_address : ⦃u : Unicode⦄ → Config → Text
metrics_address cfg =
    if is_empty (trim_space cfg.metrics_addr)
    then port_address cfg.metrics_port
    else cfg.metrics_addr

-- where `runMetricsServer` stands: in its select, in Shutdown, or over
pub data Main : Type 0 where
  selecting shutting : Main
  returned : Option Error → Main

-- where the goroutine stands: in ListenAndServe, after it, before the close of errChan, or over
pub data Listener : Type 0 where
  listening : Listener
  answered : Error → Listener
  closing finished : Listener

-- `buffer` and `closed` are errChan, whose capacity is 1; `shutdown` is whether Shutdown was called.
pub record State : Type 0 where
  pub main : Main
  pub listener : Listener
  pub buffer : Option Error
  pub closed : Bool
  pub ctx_done : Bool
  pub shutdown : Bool

abbrev pub init : State
init = record {
  main = selecting;
  listener = listening;
  buffer = none;
  closed = false;
  ctx_done = false;
  shutdown = false;
}

abbrev pub shutdown_result : Option Error → Option Error
shutdown_result none = none
shutdown_result (some e) =
    some (message (codes "metrics server shutdown failed: %w") (wrapped e end))

-- What is received of errChan: an error, or nil of the closed channel.
abbrev pub channel_result : Option Error → Option Error
channel_result (some e) = some (message (codes "metrics server failed: %w") (wrapped e end))
channel_result none = some (message (codes "metrics server failed: %w") end)

-- The steps that are bound to happen.
pub data Bound (s : State) : State → Type 0 where
  choose_done :
      s.main ≡ selecting
      → s.ctx_done ≡ true
      → Bound s (record s { main = shutting; shutdown = true })
  shutdown_returns :
      (r : Option Error)
      → s.main ≡ shutting
      → Bound s (record s { main = returned (shutdown_result r) })
  choose_error :
      (e : Error)
      → s.main ≡ selecting
      → s.buffer ≡ some e
      → Bound s (record s { main = returned (channel_result (some e)); buffer = none })
  choose_closed :
      s.main ≡ selecting
      → s.buffer ≡ none
      → s.closed ≡ true
      → Bound s (record s { main = returned (channel_result none) })
  server_closes :
      s.listener ≡ listening
      → s.shutdown ≡ true
      → Bound s (record s { listener = answered (sentinel server_closed) })
  push :
      (e : Error)
      → s.listener ≡ answered e
      → is server_closed e ≡ false
      → s.buffer ≡ none
      → Bound s (record s { listener = closing; buffer = some e })
  skip :
      (e : Error)
      → s.listener ≡ answered e
      → is server_closed e ≡ true
      → Bound s (record s { listener = closing })
  close : s.listener ≡ closing → Bound s (record s { listener = finished; closed = true })

-- The server may fail while it listens, and the context may be cancelled.
pub data Step (s : State) : State → Type 0 where
  bound : {u : State} → Bound s u → Step s u
  listen_fails :
      (e : Error)
      → s.listener ≡ listening
      → is server_closed e ≡ false
      → Step s (record s { listener = answered e })
  cancel : s.ctx_done ≡ false → Step s (record s { ctx_done = true })

-- The function has returned, and its goroutine is over.
pub data IsDone (s : State) : Type 0 where
  all_returned : (r : Option Error) → s.main ≡ returned r → s.listener ≡ finished → IsDone s
