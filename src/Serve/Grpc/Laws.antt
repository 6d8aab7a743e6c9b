-- ===== src/Serve/Grpc/Laws.antt =====
-- grpc.go: the runnable returns nil only after its context is done, and then all of it ends.
use ohttp_relay.Prelude.{
  ℕ, ◌+◌, ◌<◌, ◌≡◌, ◌⊎◌, inl, inr, refl, Bool, true, false, Option, none, some, arith, Bool-cases,
  if◌then◌else◌,
}
use ohttp_relay.Fault.{Error, equals, server_stopped}
use ohttp_relay.Serve.Runs.{Runs, Settles, Runs-keep, settles}
use ohttp_relay.Serve.Grpc.{
  Main, starting, serving, returned, Watcher, absent, waiting, stopping, gone, State, init,
  listen_error, serve_error, report, Bound, listen_fails, listens, context_done, channel_done,
  stop_returns, serve_stops, Onward, onward_bound, calls_end, Step, onward, serve_fails, cancel,
  IsDone, never_listened, all_returned,
}

-- how the function, the goroutine and the two flags between them fit together
abbrev Fits : Main → Watcher → Bool → Bool → Type 0
Fits starting absent closed stopped = (closed ≡ false) × (stopped ≡ false)
Fits serving waiting closed stopped = (closed ≡ false) × (stopped ≡ false)
Fits serving stopping closed stopped = stopped ≡ true
Fits serving gone closed stopped = stopped ≡ true
Fits (returned r) absent closed stopped = Unit
Fits (returned r) waiting closed stopped = closed ≡ true
Fits (returned r) stopping closed stopped = stopped ≡ true
Fits (returned r) gone closed stopped = Unit
Fits _ _ closed stopped = ⊥

abbrev NilAfter : Bool → Main → Type 0
NilAfter stopped (returned none) = stopped ≡ true
NilAfter stopped _ = Unit

pub record IsSound (s : State) : Type 0 where
  fits : Fits s.main s.watcher s.done_closed s.stopped
  nil_after : NilAfter s.stopped s.main
  stopped_after : s.stopped ≡ true → s.ctx_done ≡ true

report-some :
    (e : Error) → equals server_stopped e ≡ false → (f : Error) × (report (some e) ≡ some f)
unfolding report
report-some e h = (serve_error e, rw (report, h))

Fits-unstarted :
    (w : Watcher) (c st : Bool) (r : Option Error) → Fits starting w c st → Fits (returned r) w c st
Fits-unstarted absent c st r h = tt
Fits-unstarted waiting c st r h = absurd h
Fits-unstarted stopping c st r h = absurd h
Fits-unstarted gone c st r h = absurd h

Fits-served :
    (w : Watcher) (c st : Bool) (r : Option Error)
    → Fits serving w c st
    → Fits (returned r) w true st
Fits-served absent c st r h = absurd h
Fits-served waiting c st r h = refl
Fits-served stopping c st r h = h
Fits-served gone c st r h = tt

Bound-IsSound : (s u : State) → Bound s u → IsSound s → IsSound u
Bound-IsSound s u (listen_fails e m) i = record {
  fits = Fits-unstarted s.watcher s.done_closed s.stopped (some (listen_error e)) (rw m at i.fits);
  nil_after = tt;
  stopped_after = i.stopped_after;
}
Bound-IsSound s u (listens m) i = ground (arith, i.fits, i.nil_after, i.stopped_after)
Bound-IsSound s u (context_done w c) i = ground (arith, i.fits, i.nil_after, i.stopped_after)
Bound-IsSound s u (channel_done w c) i = ground (arith, i.fits, i.nil_after, i.stopped_after)
Bound-IsSound s u (stop_returns w d) i = ground (arith, i.fits, i.nil_after, i.stopped_after)
Bound-IsSound s u (serve_stops r m st d) i = record {
  fits = Fits-served s.watcher s.done_closed s.stopped (report r) (rw m at i.fits);
  nil_after = stopped_nil (report r);
  stopped_after = i.stopped_after;
}
  where
    stopped_nil : (r' : Option Error) → NilAfter s.stopped (returned r')
    stopped_nil none = st
    stopped_nil (some e) = tt

pub Step-IsSound : (s u : State) → Step s u → IsSound s → IsSound u
Step-IsSound s u (onward (onward_bound b)) i = Bound-IsSound s u b i
Step-IsSound s u (onward (calls_end st d)) i = record {
  fits = i.fits;
  nil_after = i.nil_after;
  stopped_after = i.stopped_after;
}
Step-IsSound s u (serve_fails e m real) i = record {
  fits = Fits-served s.watcher s.done_closed s.stopped (report (some e)) (rw m at i.fits);
  nil_after = let (f, q) = report-some e real in rw q tt;
  stopped_after = i.stopped_after;
}
Step-IsSound s u (cancel c) i = record {
  fits = i.fits;
  nil_after = i.nil_after;
  stopped_after = λ _. refl;
}

pub returned-IsSound : (e : Error) → IsSound (record init { main = returned (some e) })
returned-IsSound e = record { fits = tt; nil_after = tt; stopped_after = λ h. absurd (cc h) }

pub init-IsSound : IsSound init
init-IsSound = record { fits = (refl, refl); nil_after = tt; stopped_after = λ h. absurd (cc h) }

pub Runs-IsSound : {n : ℕ} {s : State} → Runs Step init n s → IsSound s
Runs-IsSound r = Runs-keep IsSound Step-IsSound r init-IsSound

-- what is still to come, at most
abbrev main_left : Main → ℕ
main_left starting = 4
main_left serving = 1
main_left (returned r) = 0

abbrev watcher_left : Watcher → ℕ
watcher_left absent = 0
watcher_left waiting = 2
watcher_left stopping = 1
watcher_left gone = 0

abbrev pub left : State → ℕ
left s =
    main_left s.main
    + watcher_left s.watcher
    + (if s.ctx_done then 0 else 1)
    + (if s.drained then 0 else 1)

Fits-absent : (w : Watcher) (c st : Bool) → Fits starting w c st → w ≡ absent
Fits-absent absent c st h = refl
Fits-absent waiting c st h = absurd h
Fits-absent stopping c st h = absurd h
Fits-absent gone c st h = absurd h

Bound-left : (s u : State) → Bound s u → IsSound s → left u < left s
Bound-left s u (listen_fails e m) i = ground (arith, m)
Bound-left s u (listens m) i =
    ground (arith, m, Fits-absent s.watcher s.done_closed s.stopped (rw m at i.fits))
Bound-left s u (context_done w c) i = ground (arith, w)
Bound-left s u (channel_done w c) i = ground (arith, w)
Bound-left s u (stop_returns w d) i = ground (arith, w)
Bound-left s u (serve_stops r m st d) i = ground (arith, m)

pub Step-left : (s u : State) → Step s u → IsSound s → left u < left s
Step-left s u (onward (onward_bound b)) i = Bound-left s u b i
Step-left s u (onward (calls_end st d)) i = ground (arith, d)
Step-left s u (serve_fails e m real) i = ground (arith, m)
Step-left s u (cancel c) i = ground (arith, c)

pub nil-done : (s : State) → IsSound s → s.main ≡ returned none → s.ctx_done ≡ true
nil-done s i h = i.stopped_after (rw h at i.nil_after)

-- A runnable returns nil only after its context is done.
pub runnable_nil_after_done :
    {n : ℕ} {s : State} → Runs Step init n s → s.main ≡ returned none → s.ctx_done ≡ true
runnable_nil_after_done {s} r h = nil-done s (Runs-IsSound r) h

-- The steps that are bound to happen leave the context alone.
pub Bound-ctx_done : (s u : State) → Bound s u → u.ctx_done ≡ s.ctx_done
Bound-ctx_done s u (listen_fails e m) = refl
Bound-ctx_done s u (listens m) = refl
Bound-ctx_done s u (context_done w c) = refl
Bound-ctx_done s u (channel_done w c) = refl
Bound-ctx_done s u (stop_returns w d) = refl
Bound-ctx_done s u (serve_stops r m st d) = refl

-- The context is done, or the function has returned.
abbrev pub IsEnding : State → Type 0
IsEnding s = (s.ctx_done ≡ true) ⊎ ((r : Option Error) × (s.main ≡ returned r))

Step-IsEnding : (s u : State) → Step s u → IsEnding s → IsEnding u
Step-IsEnding s u (onward (onward_bound (listen_fails e m))) h = inr (_, refl)
Step-IsEnding s u (onward (onward_bound (listens m))) (inl c) = inl c
Step-IsEnding s u (onward (onward_bound (listens m))) (inr (r, h)) = absurd (cc (m, h))
Step-IsEnding s u (onward (onward_bound (context_done w c))) h = h
Step-IsEnding s u (onward (onward_bound (channel_done w c))) h = h
Step-IsEnding s u (onward (onward_bound (stop_returns w d))) h = h
Step-IsEnding s u (onward (onward_bound (serve_stops r m st d))) h = inr (_, refl)
Step-IsEnding s u (onward (calls_end st d)) h = h
Step-IsEnding s u (serve_fails e m real) h = inr (_, refl)
Step-IsEnding s u (cancel c) h = inl refl

-- With the calls of a stopped server over, a step that waits for them is bound to happen.
drain :
    (s : State) {u : State}
    → s.stopped ≡ true
    → (s.drained ≡ true → Bound s u)
    → (v : State) × Onward s v
drain s st b = elim (Bool-cases s.drained) [
  | inl d ↦ (_, onward_bound (b d))
  | inr n ↦ (_, calls_end st n)
]

next_step :
    (s : State) (m : Main) (w : Watcher)
    → s.main ≡ m
    → s.watcher ≡ w
    → Fits m w s.done_closed s.stopped
    → IsEnding s
    → IsDone s ⊎ ((v : State) × Onward s v)
next_step s starting w e f h c = inr (_, onward_bound (listens e))
next_step s serving absent e f h c = absurd h
next_step s serving waiting e f h (inl c) = inr (_, onward_bound (context_done f c))
next_step s serving waiting e f h (inr (r, g)) = absurd (cc (e, g))
next_step s serving stopping e f h c = inr (drain s h (stop_returns f))
next_step s serving gone e f h c = inr (drain s h (serve_stops none e h))
next_step s (returned r) absent e f h c = inl (never_listened r e f)
next_step s (returned r) waiting e f h c = inr (_, onward_bound (channel_done f h))
next_step s (returned r) stopping e f h c = inr (drain s h (stop_returns f))
next_step s (returned r) gone e f h c = inl (all_returned r e f)

pub goes_on : (s : State) → IsSound s → IsEnding s → IsDone s ⊎ ((v : State) × Onward s v)
goes_on s i c = next_step s s.main s.watcher refl refl i.fits c

-- Once the context of a runnable is done, or its function has returned, there are at most as many
-- steps left as `left` counts, and until the function has returned and its goroutine is over, a step
-- that is bound to happen is possible, or the server is stopped and calls are pending whose end is
-- the next step.
pub runnable-Settles :
    {n : ℕ} {s : State} → Runs Step init n s → IsEnding s → Settles Step Onward IsDone (left s) s
runnable-Settles {s} r c =
    settles (λ t. IsSound t × IsEnding t) left
      (λ t u st p. (Step-IsSound t u st p.0, Step-IsEnding t u st p.1))
      (λ t u st p. Step-left t u st p.0) (λ t p. goes_on t p.0 p.1) s (Runs-IsSound r, c)
