-- ===== src/Serve/Metrics/Laws.antt =====
-- app.go: the metrics server reports only errors that there are, and ends without a leak.
use ohttp_relay.Prelude.{
  ℕ, ◌≡◌, ◌≢◌, inl, inr, refl, Bool, true, false, Option, none, some, arith, Option-cases,
}
use ohttp_relay.Fault.{Error, is, server_closed}
use ohttp_relay.Serve.Runs.{Runs, Runs-keep}
use ohttp_relay.Serve.Metrics.{
  Main, selecting, shutting, returned, Listener, listening, answered, closing, finished, State,
  init, shutdown_result, channel_result, Bound, choose_done, shutdown_returns, choose_error,
  choose_closed, server_closes, push, skip, close, Step, bound, listen_fails, cancel,
}

-- What the goroutine and the channel have to do with each other. Once the goroutine is past its send,
-- the channel holds an error unless `runMetricsServer` has left its select.
abbrev pub Fits : Listener → Option Error → Bool → Bool → Main → Type 0
Fits listening buffer closed shutdown main = (buffer ≡ none) × (closed ≡ false)
Fits (answered e) buffer closed shutdown main =
    (buffer ≡ none) × (closed ≡ false) × (is server_closed e ≡ true → shutdown ≡ true)
Fits _ buffer closed shutdown main = main ≡ selecting → buffer ≢ none

abbrev pub NilAfter : Bool → Main → Type 0
NilAfter shutdown selecting = shutdown ≡ false
NilAfter shutdown shutting = shutdown ≡ true
NilAfter shutdown (returned none) = shutdown ≡ true
NilAfter shutdown (returned (some e)) = Unit

-- The function is over only after Shutdown or an error of the goroutine.
abbrev pub Released : Main → Listener → Bool → Type 0
Released (returned r) listening shutdown = shutdown ≡ true
Released _ _ shutdown = Unit

pub record IsSound (s : State) : Type 0 where
  pub fits : Fits s.listener s.buffer s.closed s.shutdown s.main
  pub nil_after : NilAfter s.shutdown s.main
  pub shutdown_after : s.shutdown ≡ true → s.ctx_done ≡ true
  pub released : Released s.main s.listener s.shutdown

module _ (b : Option Error) (c sh : Bool) where
  Fits-shut :
      (l : Listener) (r : Option Error) → Fits l b c sh shutting → Fits l b c sh (returned r)
  Fits-shut listening r h = h
  Fits-shut (answered e) r h = h
  Fits-shut closing r h = λ q. absurd (cc q)
  Fits-shut finished r h = λ q. absurd (cc q)

  Fits-received :
      (l : Listener) (e : Error) (r : Option Error)
      → b ≡ some e
      → Fits l b c sh selecting
      → Fits l none c sh (returned r) × Released (returned r) l sh
  Fits-received listening e r q h = absurd (cc (q, h.0))
  Fits-received (answered f) e r q h = absurd (cc (q, h.0))
  Fits-received closing e r q h = ((λ p. absurd (cc p)), tt)
  Fits-received finished e r q h = ((λ p. absurd (cc p)), tt)

  -- While `runMetricsServer` is in its select, a closed channel holds an error.
  pub closed-holds : (l : Listener) → Fits l b c sh selecting → c ≡ true → b ≢ none
  closed-holds listening h q = absurd (cc (h.1, q))
  closed-holds (answered e) h q = absurd (cc (h.1, q))
  closed-holds closing h q = h refl
  closed-holds finished h q = h refl

  Released-shut : (l : Listener) (r : Option Error) → sh ≡ true → Released (returned r) l sh
  Released-shut listening r h = h
  Released-shut (answered e) r h = tt
  Released-shut closing r h = tt
  Released-shut finished r h = tt

shut_nil : (r : Option Error) (sh : Bool) → sh ≡ true → NilAfter sh (returned r)
shut_nil none sh h = h
shut_nil (some e) sh h = tt

Bound-IsSound : (s u : State) → Bound s u → IsSound s → IsSound u
Bound-IsSound s u (choose_done m c) i =
    ground (arith, i.fits, i.nil_after, i.shutdown_after, i.released)
Bound-IsSound s u (shutdown_returns r m) i = record {
  fits = Fits-shut s.buffer s.closed s.shutdown s.listener (shutdown_result r) (rw m at i.fits);
  nil_after = shut_nil (shutdown_result r) s.shutdown (rw m at i.nil_after);
  shutdown_after = i.shutdown_after;
  released =
      Released-shut s.buffer s.closed s.shutdown s.listener (shutdown_result r)
        (rw m at i.nil_after);
}
Bound-IsSound s u (choose_error e m b) i =
    let r : Option Error = channel_result (some e) in
    let q : Fits s.listener none s.closed s.shutdown (returned r)
        × Released (returned r) s.listener s.shutdown =
      Fits-received s.buffer s.closed s.shutdown s.listener e r b (rw m at i.fits) in
    record { fits = q.0; nil_after = tt; shutdown_after = i.shutdown_after; released = q.1 }
Bound-IsSound s u (choose_closed m b c) i =
    absurd (closed-holds s.buffer s.closed s.shutdown s.listener (rw m at i.fits) c b)
Bound-IsSound s u (server_closes l sh) i =
    ground (arith, i.fits, i.nil_after, i.shutdown_after, i.released)
Bound-IsSound s u (push e l real b) i =
    ground (arith, i.fits, i.nil_after, i.shutdown_after, i.released)
Bound-IsSound s u (skip e l ended) i =
    ground (arith, i.fits, i.nil_after, i.shutdown_after, i.released)
Bound-IsSound s u (close l) i = ground (arith, i.fits, i.nil_after, i.shutdown_after, i.released)

pub Step-IsSound : (s u : State) → Step s u → IsSound s → IsSound u
Step-IsSound s u (bound b) i = Bound-IsSound s u b i
Step-IsSound s u (listen_fails e l real) i =
    ground (arith, i.fits, i.nil_after, i.shutdown_after, i.released)
Step-IsSound s u (cancel c) i = ground (arith, i.fits, i.nil_after, i.shutdown_after, i.released)

pub init-IsSound : IsSound init
init-IsSound = record {
  fits = (refl, refl);
  nil_after = refl;
  shutdown_after = λ h. absurd (cc h);
  released = tt;
}

pub Runs-IsSound : {n : ℕ} {s : State} → Runs Step init n s → IsSound s
Runs-IsSound r = Runs-keep IsSound Step-IsSound r init-IsSound

-- As long as the metrics server is in its select, a closed errChan still holds the error of the
-- goroutine: the closed channel is never read, and no error is made of nil.
pub closed_never_read :
    {n : ℕ} {s : State}
    → Runs Step init n s
    → s.main ≡ selecting
    → s.closed ≡ true
    → (e : Error) × (s.buffer ≡ some e)
closed_never_read {s} r m c = elim (Option-cases s.buffer) [
  | inl empty ↦
      absurd (
        closed-holds s.buffer s.closed s.shutdown s.listener (rw m at (Runs-IsSound r).fits) c
          empty)
  | inr held ↦ held
]

pub nil-done : (s : State) → IsSound s → s.main ≡ returned none → s.ctx_done ≡ true
nil-done s i h = i.shutdown_after (rw h at i.nil_after)

-- The metrics server returns nil only after its context is done.
pub metrics_nil_after_done :
    {n : ℕ} {s : State} → Runs Step init n s → s.main ≡ returned none → s.ctx_done ≡ true
metrics_nil_after_done {s} r h = nil-done s (Runs-IsSound r) h

-- The steps that are bound to happen leave the context alone.
pub Bound-ctx_done : (s u : State) → Bound s u → u.ctx_done ≡ s.ctx_done
Bound-ctx_done s u (choose_done m c) = refl
Bound-ctx_done s u (shutdown_returns r m) = refl
Bound-ctx_done s u (choose_error e m b) = refl
Bound-ctx_done s u (choose_closed m b c) = refl
Bound-ctx_done s u (server_closes l sh) = refl
Bound-ctx_done s u (push e l real b) = refl
Bound-ctx_done s u (skip e l ended) = refl
Bound-ctx_done s u (close l) = refl
