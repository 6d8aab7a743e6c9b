-- ===== src/Serve/Metrics/Ending.antt =====
-- app.go: how the metrics server comes to its end.
use ohttp_relay.Prelude.{
  ℕ, ◌+◌, ◌<◌, ◌≡◌, ◌⊎◌, inl, inr, refl, true, Option, none, arith, Bool-cases, if◌then◌else◌,
}
use ohttp_relay.Fault.{Error, is, server_closed}
use ohttp_relay.Serve.Runs.{Runs, Settles, settles}
use ohttp_relay.Serve.Metrics.{
  Main, selecting, shutting, returned, Listener, listening, answered, closing, finished, State,
  init, Bound, choose_done, shutdown_returns, choose_error, choose_closed, server_closes, push,
  skip, close, Step, bound, listen_fails, cancel, IsDone, all_returned,
}
use ohttp_relay.Serve.Metrics.Laws.{IsSound, Step-IsSound, Runs-IsSound, Fits, NilAfter, Released}

-- what is still to come, at most
abbrev main_left : Main → ℕ
main_left selecting = 2
main_left shutting = 1
main_left (returned r) = 0

abbrev listener_left : Listener → ℕ
listener_left listening = 3
listener_left (answered e) = 2
listener_left closing = 1
listener_left finished = 0

abbrev pub left : State → ℕ
left s = main_left s.main + listener_left s.listener + (if s.ctx_done then 0 else 1)

pub Step-left : (s u : State) → Step s u → left u < left s
Step-left s u (bound (choose_done m c)) = ground (arith, m)
Step-left s u (bound (shutdown_returns r m)) = ground (arith, m)
Step-left s u (bound (choose_error e m b)) = ground (arith, m)
Step-left s u (bound (choose_closed m b c)) = ground (arith, m)
Step-left s u (bound (server_closes l sh)) = ground (arith, l)
Step-left s u (bound (push e l real b)) = ground (arith, l)
Step-left s u (bound (skip e l ended)) = ground (arith, l)
Step-left s u (bound (close l)) = ground (arith, l)
Step-left s u (listen_fails e l real) = ground (arith, l)
Step-left s u (cancel c) = ground (arith, c)

-- The context is done, or the function has returned.
abbrev pub IsEnding : State → Type 0
IsEnding s = (s.ctx_done ≡ true) ⊎ ((r : Option Error) × (s.main ≡ returned r))

Step-IsEnding : (s u : State) → Step s u → IsEnding s → IsEnding u
Step-IsEnding s u (bound (choose_done m c)) h = inl c
Step-IsEnding s u (bound (shutdown_returns r m)) h = inr (_, refl)
Step-IsEnding s u (bound (choose_error e m b)) h = inr (_, refl)
Step-IsEnding s u (bound (choose_closed m b c)) h = inr (_, refl)
Step-IsEnding s u (bound (server_closes l sh)) h = h
Step-IsEnding s u (bound (push e l real b)) h = h
Step-IsEnding s u (bound (skip e l ended)) h = h
Step-IsEnding s u (bound (close l)) h = h
Step-IsEnding s u (listen_fails e l real) h = h
Step-IsEnding s u (cancel c) h = inl refl

next_step :
    (s : State) (m : Main) (l : Listener)
    → s.main ≡ m
    → s.listener ≡ l
    → Fits l s.buffer s.closed s.shutdown m
    → NilAfter s.shutdown m
    → Released m l s.shutdown
    → IsEnding s
    → IsDone s ⊎ ((v : State) × Bound s v)
next_step s selecting l e f h n q (inl c) = inr (_, choose_done e c)
next_step s selecting l e f h n q (inr (r, g)) = absurd (cc (e, g))
next_step s shutting l e f h n q c = inr (_, shutdown_returns none e)
next_step s (returned r) listening e f h n q c = inr (_, server_closes f q)
next_step s (returned r) (answered g) e f h n q c = elim (Bool-cases (is server_closed g)) [
  | inl ended ↦ inr (_, skip g f ended)
  | inr real ↦ inr (_, push g f real h.0)
]
next_step s (returned r) closing e f h n q c = inr (_, close f)
next_step s (returned r) finished e f h n q c = inl (all_returned r e f)

pub goes_on : (s : State) → IsSound s → IsEnding s → IsDone s ⊎ ((v : State) × Bound s v)
goes_on s i c = next_step s s.main s.listener refl refl i.fits i.nil_after i.released c

-- Once the context of the metrics server is done, or its function has returned, there are at most as
-- many steps left as `left` counts, and until the function has returned and its goroutine is over, a
-- step that is bound to happen is possible: the function returns, and no goroutine leaks.
pub metrics-Settles :
    {n : ℕ} {s : State} → Runs Step init n s → IsEnding s → Settles Step Bound IsDone (left s) s
metrics-Settles {s} r c =
    settles (λ t. IsSound t × IsEnding t) left
      (λ t u st p. (Step-IsSound t u st p.0, Step-IsEnding t u st p.1))
      (λ t u st p. Step-left t u st) (λ t p. goes_on t p.0 p.1) s (Runs-IsSound r, c)
