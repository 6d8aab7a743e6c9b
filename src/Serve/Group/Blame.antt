-- ===== src/Serve/Group/Blame.antt =====
-- cmd/ohttp-relay/main.go and app.go: the error with which the relay ends.
use ohttp_relay.Prelude.{◌≡◌, refl, sym, ◌∙◌, Bool, false, Option, some, ℕ}
use ohttp_relay.Text.{Unicode}
use ohttp_relay.Fault.{Error, Result, ok, bind-eq-ok}
use ohttp_relay.Metrics.{Creation, init_metrics}
use ohttp_relay.Config.{Config}
use ohttp_relay.Handlers.Server.{Server}
use ohttp_relay.App.{Pings, run_relay_server}
use ohttp_relay.Serve.Runs.{Runs, Runs-keep}
use ohttp_relay.Serve.Grpc
use ohttp_relay.Serve.Metrics
use ohttp_relay.Serve.Group.Laws.{Runs-IsSound, run_never_nil}
use ohttp_relay.Serve.Group.{
  finished, State, init, Fails, health_failed, metrics_failed, relay_failed, health_goes,
  metrics_goes, relay_goes, tell_health, tell_metrics, tell_relay, notes, waits, Step, bound,
  health_moves, metrics_moves, relay_moves, outer_done, run, exit_status, main_run, loaded,
  metrics_ready,
}

abbrev IsKept : {M : Type 0} → (Option Error → M) → M → M → Type 0
IsKept returned m m' = (r : Option Error) → m ≡ returned r → m' ≡ returned r

grpc_stays : (s u : Grpc.State) → Grpc.Step s u → IsKept Grpc.returned s.main u.main
grpc_stays s u (Grpc.onward (Grpc.onward_bound (Grpc.listen_fails e m))) r h = absurd (cc (m, h))
grpc_stays s u (Grpc.onward (Grpc.onward_bound (Grpc.listens m))) r h = absurd (cc (m, h))
grpc_stays s u (Grpc.onward (Grpc.onward_bound (Grpc.context_done w c))) r h = h
grpc_stays s u (Grpc.onward (Grpc.onward_bound (Grpc.channel_done w c))) r h = h
grpc_stays s u (Grpc.onward (Grpc.onward_bound (Grpc.stop_returns w d))) r h = h
grpc_stays s u (Grpc.onward (Grpc.onward_bound (Grpc.serve_stops q m st d))) r h =
    absurd (cc (m, h))
grpc_stays s u (Grpc.serve_fails e m real) r h = absurd (cc (m, h))
grpc_stays s u (Grpc.onward (Grpc.calls_end st d)) r h = h
grpc_stays s u (Grpc.cancel c) r h = h

metrics_stays : (s u : Metrics.State) → Metrics.Step s u → IsKept Metrics.returned s.main u.main
metrics_stays s u (Metrics.bound (Metrics.choose_done m c)) r h = absurd (cc (m, h))
metrics_stays s u (Metrics.bound (Metrics.shutdown_returns q m)) r h = absurd (cc (m, h))
metrics_stays s u (Metrics.bound (Metrics.choose_error e m b)) r h = absurd (cc (m, h))
metrics_stays s u (Metrics.bound (Metrics.choose_closed m b c)) r h = absurd (cc (m, h))
metrics_stays s u (Metrics.bound (Metrics.server_closes l sh)) r h = h
metrics_stays s u (Metrics.bound (Metrics.push e l real b)) r h = h
metrics_stays s u (Metrics.bound (Metrics.skip e l ended)) r h = h
metrics_stays s u (Metrics.bound (Metrics.close l)) r h = h
metrics_stays s u (Metrics.listen_fails e l real) r h = h
metrics_stays s u (Metrics.cancel c) r h = h

-- The first error is that of a function that has returned.
abbrev IsBlamed : State → Type 0
IsBlamed s = (e : Error) → s.first ≡ some e → Fails s e

-- What has failed stays so as long as results are kept.
Fails-kept :
    (s u : State) (e : Error)
    → IsKept Grpc.returned s.health.main u.health.main
    → IsKept Metrics.returned s.metrics.main u.metrics.main
    → IsKept Grpc.returned s.relay.main u.relay.main
    → Fails s e
    → Fails u e
Fails-kept s u e h m r (health_failed f) = health_failed (h (some e) f)
Fails-kept s u e h m r (metrics_failed f) = metrics_failed (m (some e) f)
Fails-kept s u e h m r (relay_failed f) = relay_failed (r (some e) f)

-- The same three results.
Fails-same :
    (s u : State) (e : Error)
    → s.health.main ≡ u.health.main
    → s.metrics.main ≡ u.metrics.main
    → s.relay.main ≡ u.relay.main
    → Fails s e
    → Fails u e
Fails-same s u e h m r = Fails-kept s u e (λ _ f. sym h ∙ f) (λ _ f. sym m ∙ f) (λ _ f. sym r ∙ f)

module _ {cancellable : Bool} where
  Step-IsBlamed : (s u : State) → Step cancellable s u → IsBlamed s → IsBlamed u
  Step-IsBlamed s u (bound (health_goes b)) i e f =
      Fails-kept s u e (grpc_stays s.health u.health (Grpc.onward (Grpc.onward_bound b))) (λ _ h. h)
        (λ _ h. h) (i e f)
  Step-IsBlamed s u (bound (metrics_goes b)) i e f =
      Fails-kept s u e (λ _ h. h) (metrics_stays s.metrics u.metrics (Metrics.bound b)) (λ _ h. h)
        (i e f)
  Step-IsBlamed s u (bound (relay_goes b)) i e f =
      Fails-kept s u e (λ _ h. h) (λ _ h. h)
        (grpc_stays s.relay u.relay (Grpc.onward (Grpc.onward_bound b))) (i e f)
  Step-IsBlamed s u (bound (tell_health c n)) i e f = Fails-same s u e refl refl refl (i e f)
  Step-IsBlamed s u (bound (tell_metrics c n)) i e f = Fails-same s u e refl refl refl (i e f)
  Step-IsBlamed s u (bound (tell_relay c n)) i e f = Fails-same s u e refl refl refl (i e f)
  Step-IsBlamed s u (bound (notes g w failed n)) i e f =
      let blamed : g ≡ e = cc f in Fails-same s u e refl refl refl (rw blamed at failed)
  Step-IsBlamed s u (bound (waits w a)) i e f = Fails-same s u e refl refl refl (i e f)
  Step-IsBlamed s u (health_moves st c) i e f =
      Fails-kept s u e (grpc_stays s.health u.health st) (λ _ h. h) (λ _ h. h) (i e f)
  Step-IsBlamed s u (metrics_moves st c) i e f =
      Fails-kept s u e (λ _ h. h) (metrics_stays s.metrics u.metrics st) (λ _ h. h) (i e f)
  Step-IsBlamed s u (relay_moves st c) i e f =
      Fails-kept s u e (λ _ h. h) (λ _ h. h) (grpc_stays s.relay u.relay st) (i e f)
  Step-IsBlamed s u (outer_done c w n) i e f = Fails-same s u e refl refl refl (i e f)

run_blames :
    (server : Result Server) {n : ℕ} {s : State} (r : Option Error)
    → Runs (Step false) (init server) n s
    → s.main ≡ finished r
    → (e : Error) × (r ≡ some e) × Fails s e
run_blames server {s} r runs h =
    let (e, given) = run_never_nil server r runs h in
    let first_of = (Runs-IsSound server runs).result r h in
    (e, given, Runs-keep IsBlamed Step-IsBlamed runs (λ e f. absurd (cc f)) e (first_of.1 ∙ given))

-- If main gets as far as the Wait of App.Run and Run ever returns, it returns an error, and this is
-- the error of one of the three servers, so that the process ends with status 1.
pub main_run_blames :
    ⦃u : Unicode⦄ (cfg : Result Config) (exporter : Option Error) (meter : Creation → Option Error)
    (pings : Pings) (cert : Option Error) (start : State) {n : ℕ} {s : State} (r : Option Error)
    → main_run cfg (λ c. run exporter meter c pings cert) ≡ ok start
    → Runs (Step false) start n s
    → s.main ≡ finished r
    → (e : Error) × (r ≡ some e) × Fails s e × (exit_status r ≡ 1)
unfolding main_run run
main_run_blames cfg exporter meter pings cert start r up runs h =
    let (c, config_loaded, ran) = bind-eq-ok (loaded cfg) _ up in
    let (ready, made, waiting) =
      bind-eq-ok (metrics_ready (init_metrics exporter meter).0)
        (λ _. ok (init (run_relay_server c pings cert))) ran in
    let begun : init (run_relay_server c pings cert) ≡ start = cc waiting in
    let (e, returned, fails) =
      run_blames (run_relay_server c pings cert) r (rw (sym begun) at runs) h in
    (e, returned, fails, rw returned refl)
