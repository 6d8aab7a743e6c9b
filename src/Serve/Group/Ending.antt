-- ===== src/Serve/Group/Ending.antt =====
-- app.go: App.Run returns, and all of its goroutines end, once its group is cancelled.
use ohttp_relay.Prelude.{
  ℕ, ◌+◌, ◌<◌, ◌≡◌, ◌⊎◌, inl, inr, refl, ap, ◌∙◌, Bool, true, Option, none, some, arith, Bool-cases,
  Option-cases, if◌then◌else◌,
}
use ohttp_relay.Fault.{Error, Result}
use ohttp_relay.Handlers.Server.{Server}
use ohttp_relay.Serve.Runs.{Runs, Settles, settles}
use ohttp_relay.Serve.Grpc
use ohttp_relay.Serve.Metrics
use ohttp_relay.Serve.Grpc.Laws as GrpcLaws
use ohttp_relay.Serve.Metrics.Ending as MetricsEnding
use ohttp_relay.Serve.Group.{
  Main, in_wait, finished, State, init, Fails, health_failed, metrics_failed, relay_failed, IsNoted,
  Bound, health_goes, metrics_goes, relay_goes, tell_health, tell_metrics, tell_relay, notes, waits,
  Onward, onward_bound, health_calls_end, relay_calls_end, Step, bound, health_moves, metrics_moves,
  relay_moves, outer_done, IsDone, all_over,
}
use ohttp_relay.Serve.Group.Laws.{IsSound, Step-IsSound, Runs-IsSound}

-- what is still to come, at most
abbrev pub left : State → ℕ
left s =
    GrpcLaws.left s.health
    + MetricsEnding.left s.metrics
    + GrpcLaws.left s.relay
    + elim s.first [ none ↦ 1 | some e ↦ 0 ]
    + elim s.main [ in_wait ↦ 1 | finished r ↦ 0 ]
    + (if s.cancelled then 0 else 1)

Bound-left :
    {cancellable : Bool} (s u : State) → Bound s u → IsSound cancellable s → left u < left s
Bound-left s u (health_goes {h} b) i =
    omega (arith, GrpcLaws.Step-left s.health h (Grpc.onward (Grpc.onward_bound b)) i.health_sound)
Bound-left s u (metrics_goes {m} b) i =
    omega (arith, MetricsEnding.Step-left s.metrics m (Metrics.bound b))
Bound-left s u (relay_goes {r} b) i =
    omega (arith, GrpcLaws.Step-left s.relay r (Grpc.onward (Grpc.onward_bound b)) i.relay_sound)
Bound-left s u (tell_health c n) i =
    omega (arith, GrpcLaws.Step-left s.health _ (Grpc.cancel n) i.health_sound)
Bound-left s u (tell_metrics c n) i =
    omega (arith, MetricsEnding.Step-left s.metrics _ (Metrics.cancel n))
Bound-left s u (tell_relay c n) i =
    omega (arith, GrpcLaws.Step-left s.relay _ (Grpc.cancel n) i.relay_sound)
Bound-left s u (notes e w f n) i = ground (arith, n)
Bound-left s u (waits w a) i = ground (arith, w)

Step-left :
    {cancellable : Bool} (s u : State)
    → Step cancellable s u
    → IsSound cancellable s
    → left u < left s
Step-left s u (bound b) i = Bound-left s u b i
Step-left s u (health_moves {h} st e) i =
    omega (arith, GrpcLaws.Step-left s.health h st i.health_sound)
Step-left s u (metrics_moves {m} st e) i = omega (arith, MetricsEnding.Step-left s.metrics m st)
Step-left s u (relay_moves {r} st e) i =
    omega (arith, GrpcLaws.Step-left s.relay r st i.relay_sound)
Step-left s u (outer_done c w n) i = ground (arith, n)

Step-cancelled :
    {cancellable : Bool} (s u : State)
    → Step cancellable s u
    → s.cancelled ≡ true
    → u.cancelled ≡ true
Step-cancelled s u (bound (health_goes b)) h = h
Step-cancelled s u (bound (metrics_goes b)) h = h
Step-cancelled s u (bound (relay_goes b)) h = h
Step-cancelled s u (bound (tell_health c n)) h = h
Step-cancelled s u (bound (tell_metrics c n)) h = h
Step-cancelled s u (bound (tell_relay c n)) h = h
Step-cancelled s u (bound (notes e w f n)) h = refl
Step-cancelled s u (bound (waits w a)) h = refl
Step-cancelled s u (health_moves st e) h = h
Step-cancelled s u (metrics_moves st e) h = h
Step-cancelled s u (relay_moves st e) h = h
Step-cancelled s u (outer_done c w n) h = refl

grpc_result : (h : Grpc.State) → Grpc.IsDone h → (r : Option Error) × (h.main ≡ Grpc.returned r)
grpc_result h (Grpc.never_listened r e w) = (r, e)
grpc_result h (Grpc.all_returned r e w) = (r, e)

metrics_result :
    (m : Metrics.State) → Metrics.IsDone m → (r : Option Error) × (m.main ≡ Metrics.returned r)
metrics_result m (Metrics.all_returned r e w) = (r, e)

-- An error that has been noted, or that is still to be noted as the first one.
noted :
    (s : State) (r : Option Error)
    → ((e : Error) → r ≡ some e → Fails s e)
    → IsNoted r s.first ⊎ ((e : Error) × Fails s e × (s.first ≡ none))
noted s none f = inl tt
noted s (some e) f = elim (Option-cases s.first) [
  | inl open_yet ↦ inr (e, f e refl, open_yet)
  | inr known ↦ inl known
]

module _ (s : State) where
  -- With all three over, Run takes note of an error, or returns.
  Wait_goes_on :
      Grpc.IsDone s.health
      → Metrics.IsDone s.metrics
      → Grpc.IsDone s.relay
      → s.main ≡ in_wait
      → (v : State) × Bound s v
  Wait_goes_on h m r w =
      let (hr, he) = grpc_result s.health h in
      let (mr, me) = metrics_result s.metrics m in
      let (rr, re) = grpc_result s.relay r in
      elim (noted s hr (λ e q. health_failed (he ∙ ap Grpc.returned q))) [
        | inr (e, f, n) ↦ (_, notes e w f n)
        | inl hn ↦ elim (noted s mr (λ e q. metrics_failed (me ∙ ap Metrics.returned q))) [
          | inr (e, f, n) ↦ (_, notes e w f n)
          | inl mn ↦ elim (noted s rr (λ e q. relay_failed (re ∙ ap Grpc.returned q))) [
            | inr (e, f, n) ↦ (_, notes e w f n)
            | inl rn ↦ (
              _,
              waits w (record {
                health_result = hr;
                health_over = he;
                health_noted = hn;
                metrics_result = mr;
                metrics_over = me;
                metrics_noted = mn;
                relay_result = rr;
                relay_over = re;
                relay_noted = rn;
              }),
            )
          ]
        ]
      ]

  Main-cases :
      (m : Main) → s.main ≡ m → (s.main ≡ in_wait) ⊎ ((r : Option Error) × (s.main ≡ finished r))
  Main-cases in_wait e = inl e
  Main-cases (finished r) e = inr (r, e)

  all-IsDone :
      Grpc.IsDone s.health
      → Metrics.IsDone s.metrics
      → Grpc.IsDone s.relay
      → IsDone s ⊎ ((v : State) × Onward s v)
  all-IsDone h m r = elim (Main-cases s.main refl) [
    | inl w ↦ let (v, b) = Wait_goes_on h m r w in inr (v, onward_bound b)
    | inr (res, e) ↦ inl (all_over res e h m r)
  ]

  health_next : {h : Grpc.State} → Grpc.Onward s.health h → (v : State) × Onward s v
  health_next (Grpc.onward_bound b) = (_, onward_bound (health_goes b))
  health_next (Grpc.calls_end st d) = (_, health_calls_end st d)

  relay_next : {r : Grpc.State} → Grpc.Onward s.relay r → (v : State) × Onward s v
  relay_next (Grpc.onward_bound b) = (_, onward_bound (relay_goes b))
  relay_next (Grpc.calls_end st d) = (_, relay_calls_end st d)

  module _ {cancellable : Bool} (i : IsSound cancellable s) (c : s.cancelled ≡ true) where
    health_goes_on : Grpc.IsDone s.health ⊎ ((v : State) × Onward s v)
    health_goes_on = elim (Bool-cases s.health.ctx_done) [
      | inr untold ↦ inr (_, onward_bound (tell_health c untold))
      | inl told ↦ elim (GrpcLaws.goes_on s.health i.health_sound (inl told)) [
        | inl over ↦ inl over
        | inr (h, o) ↦ inr (health_next o)
      ]
    ]

    metrics_goes_on : Metrics.IsDone s.metrics ⊎ ((v : State) × Onward s v)
    metrics_goes_on = elim (Bool-cases s.metrics.ctx_done) [
      | inr untold ↦ inr (_, onward_bound (tell_metrics c untold))
      | inl told ↦ elim (MetricsEnding.goes_on s.metrics i.metrics_sound (inl told)) [
        | inl over ↦ inl over
        | inr (m, b) ↦ inr (_, onward_bound (metrics_goes b))
      ]
    ]

    relay_goes_on : Grpc.IsDone s.relay ⊎ ((v : State) × Onward s v)
    relay_goes_on = elim (Bool-cases s.relay.ctx_done) [
      | inr untold ↦ inr (_, onward_bound (tell_relay c untold))
      | inl told ↦ elim (GrpcLaws.goes_on s.relay i.relay_sound (inl told)) [
        | inl over ↦ inl over
        | inr (r, o) ↦ inr (relay_next o)
      ]
    ]

    next_step : IsDone s ⊎ ((v : State) × Onward s v)
    next_step = elim health_goes_on [
      | inr b ↦ inr b
      | inl h ↦ elim metrics_goes_on [
        | inr b ↦ inr b
        | inl m ↦ elim relay_goes_on [ inr b ↦ inr b | inl r ↦ all-IsDone h m r ]
      ]
    ]

-- Once the group is cancelled, be it by the error of one server or from outside, at most as many steps
-- are left as `left` counts, and until Run has returned and all three servers and their goroutines are
-- over, a step that is bound to happen is possible, or one of the gRPC servers is stopped and has
-- calls pending whose end is the next step.
pub run-Settles :
    {cancellable : Bool} (server : Result Server) {n : ℕ} {s : State}
    → Runs (Step cancellable) (init server) n s
    → s.cancelled ≡ true
    → Settles (Step cancellable) Onward IsDone (left s) s
run-Settles {cancellable} server {s} r c =
    settles (λ t. IsSound cancellable t × (t.cancelled ≡ true)) left
      (λ t u st p. (Step-IsSound t u st p.0, Step-cancelled t u st p.1))
      (λ t u st p. Step-left t u st p.0) (λ t p. next_step t p.0 p.1) s (Runs-IsSound server r, c)
