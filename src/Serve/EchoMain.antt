-- ===== src/Serve/EchoMain.antt =====
-- cmd/echo-gateway/main.go: `main` from the start of its server on, as one process with the goroutine
-- of the server and that of the signal handler. Of the server this is used, as it is documented:
-- ListenAndServe returns ErrServerClosed only after Shutdown has been called.
use ohttp_relay.Prelude.{ℕ, ◌≤◌, ◌≡◌, ◌≢◌, refl, ◌⊎◌, inl, inr, true, arith}
use ohttp_relay.Serve.Runs.{Runs, Runs-keep}
use ohttp_relay.Serve.Signals

-- where `main` stands: at the receive from ctx.Done(), in Shutdown, or over, by its end or log.Fatalf
pub data Main : Type 0 where
  awaiting shutting returned fatal : Main

-- where the goroutine of the server stands: in ListenAndServe, over, or in log.Fatalf
pub data Listener : Type 0 where
  listening finished failed : Listener

pub record State : Type 0 where
  pub main : Main
  pub listener : Listener
  pub signals : Signals.State

abbrev pub init : State
init = record { main = awaiting; listener = listening; signals = Signals.init }

-- No one has ended the process.
pub record IsRunning (s : State) : Type 0 where
  pub not_returned : s.main ≢ returned
  pub not_fatal : s.main ≢ fatal
  pub not_failed : s.listener ≢ failed
  pub not_exited : s.signals.handler ≢ Signals.exited

pub data Step (s : State) : State → Type 0 where
  signals_move :
      {g : Signals.State}
      → IsRunning s
      → Signals.Step s.signals g
      → Step s (record s { signals = g })
  context_done :
      IsRunning s
      → s.main ≡ awaiting
      → s.signals.ctx_done ≡ true
      → Step s (record s { main = shutting })
  shutdown_succeeds : IsRunning s → s.main ≡ shutting → Step s (record s { main = returned })
  shutdown_fails : IsRunning s → s.main ≡ shutting → Step s (record s { main = fatal })
  server_closes :
      IsRunning s
      → s.main ≡ shutting
      → s.listener ≡ listening
      → Step s (record s { listener = finished })
  listen_fails : IsRunning s → s.listener ≡ listening → Step s (record s { listener = failed })

-- `main` leaves its receive only with the context done, and the server is over only after that.
record IsSound (s : State) : Type 0 where
  counted : Signals.IsCounted s.signals
  left_after : (s.main ≡ awaiting) ⊎ (s.signals.ctx_done ≡ true)
  closed_after : s.listener ≡ finished → s.signals.ctx_done ≡ true

ctx_stays : (g h : Signals.State) → Signals.Step g h → g.ctx_done ≡ true → h.ctx_done ≡ true
ctx_stays g h (Signals.receives (Signals.receive_first f q)) c = c
ctx_stays g h (Signals.receives (Signals.cancels f)) c = refl
ctx_stays g h (Signals.receives (Signals.receive_second f q)) c = c
ctx_stays g h Signals.signal c = c

done_after : (s : State) → IsSound s → s.main ≡ shutting → s.signals.ctx_done ≡ true
done_after s i m = elim (i.left_after) [ inl w ↦ absurd (cc (m, w)) | inr c ↦ c ]

done_at_end : (s : State) → IsSound s → s.main ≡ returned → s.signals.ctx_done ≡ true
done_at_end s i m = elim (i.left_after) [ inl w ↦ absurd (cc (m, w)) | inr c ↦ c ]

Step-IsSound : (s u : State) → Step s u → IsSound s → IsSound u
Step-IsSound s u (signals_move {g} r st) i = record {
  counted = Signals.Step-IsCounted s.signals g st i.counted;
  left_after = elim (i.left_after) [ inl m ↦ inl m | inr c ↦ inr (ctx_stays s.signals g st c) ];
  closed_after = λ f. ctx_stays s.signals g st (i.closed_after f);
}
Step-IsSound s u (context_done r m c) i = record {
  counted = i.counted;
  left_after = inr c;
  closed_after = i.closed_after;
}
Step-IsSound s u (shutdown_succeeds r m) i = record {
  counted = i.counted;
  left_after = inr (done_after s i m);
  closed_after = i.closed_after;
}
Step-IsSound s u (shutdown_fails r m) i = record {
  counted = i.counted;
  left_after = inr (done_after s i m);
  closed_after = i.closed_after;
}
Step-IsSound s u (server_closes r m l) i = record {
  counted = i.counted;
  left_after = i.left_after;
  closed_after = λ f. done_after s i m;
}
Step-IsSound s u (listen_fails r l) i = record {
  counted = i.counted;
  left_after = i.left_after;
  closed_after = λ f. absurd (cc f);
}

-- How the gateway ends: regularly only after a signal, and only then its server closes; once its
-- handler waits, one signal makes `main` go on to Shutdown, and two end the process.
pub record Ends (s : State) : Type 0 where
  pub returned_after_one : s.main ≡ returned → 1 ≤ s.signals.sent
  pub closed_after_one : s.listener ≡ finished → 1 ≤ s.signals.sent
  pub one_stops :
      IsRunning s
      → Signals.IsQuiet s.signals
      → 1 ≤ s.signals.sent
      → s.main ≡ awaiting
      → Step s (record s { main = shutting })
  pub two_end : Signals.IsQuiet s.signals → 2 ≤ s.signals.sent → ¬ IsRunning s

ends : (s : State) → IsSound s → Ends s
ends s i =
    let a : Signals.Answers s.signals = Signals.Answers-Counted s.signals i.counted in
    record {
      returned_after_one = λ m. a.cancelled_after_one (done_at_end s i m);
      closed_after_one = λ f. a.cancelled_after_one (i.closed_after f);
      one_stops = λ r q n m. context_done r m (a.one_cancels q n);
      two_end = λ q n r. r.not_exited (a.two_exit q n);
    }

-- However the signals, the handler, the server and `main` interleave, the gateway returns regularly, and
-- its server closes, only after a signal; once the handler waits, one signal lets a `main` that still
-- waits go on to Shutdown, and two have ended the process.
pub echo_main-Ends : {n : ℕ} {s : State} → Runs Step init n s → Ends s
echo_main-Ends {s} r = ends s (
    Runs-keep IsSound Step-IsSound r (record {
      counted = (refl, (λ h. absurd (omega arith)), (λ h. absurd (omega arith)), omega arith);
      left_after = inl refl;
      closed_after = λ f. absurd (cc f);
    }))
