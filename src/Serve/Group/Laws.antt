-- ===== src/Serve/Group/Laws.antt =====
-- app.go: how App.Run ends.
use ohttp_relay.Prelude.{
  ℕ, ◌≡◌, ◌⊎◌, inl, inr, refl, sym, ◌∙◌, Bool, true, false, Option, none, some,
}
use ohttp_relay.Fault.{Error, Result, ok, err}
use ohttp_relay.Handlers.Server.{Server}
use ohttp_relay.Serve.Runs.{Runs, Runs-keep}
use ohttp_relay.Serve.Grpc
use ohttp_relay.Serve.Metrics
use ohttp_relay.Serve.Grpc.Laws as GrpcLaws
use ohttp_relay.Serve.Metrics.Laws as MetricsLaws
use ohttp_relay.Serve.Group.{
  in_wait, finished, State, init, relay_start, IsNoted, AllReturned, Bound, health_goes,
  metrics_goes, relay_goes, tell_health, tell_metrics, tell_relay, notes, waits, Step, bound,
  health_moves, metrics_moves, relay_moves, outer_done,
}

-- a context is done only if that of the group is
abbrev Within : Bool → Bool → Type 0
Within inner group = inner ≡ true → group ≡ true

pub record IsSound (cancellable : Bool) (s : State) : Type 0 where
  pub health_sound : GrpcLaws.IsSound s.health
  pub metrics_sound : MetricsLaws.IsSound s.metrics
  pub relay_sound : GrpcLaws.IsSound s.relay
  health_within : Within s.health.ctx_done s.cancelled
  metrics_within : Within s.metrics.ctx_done s.cancelled
  relay_within : Within s.relay.ctx_done s.cancelled
  cause :
      s.main ≡ in_wait
      → s.cancelled ≡ true
      → (cancellable ≡ true) ⊎ ((e : Error) × (s.first ≡ some e))
  pub result :
      (r : Option Error) → s.main ≡ finished r → (r ≡ none → cancellable ≡ true) × (s.first ≡ r)

module _ {cancellable : Bool} (s : State) (i : IsSound cancellable s) where
  with_health :
      (h : Grpc.State)
      → GrpcLaws.IsSound h
      → Within h.ctx_done s.cancelled
      → IsSound cancellable (record s { health = h })
  with_health h sound within = record {
    health_sound = sound;
    metrics_sound = i.metrics_sound;
    relay_sound = i.relay_sound;
    health_within = within;
    metrics_within = i.metrics_within;
    relay_within = i.relay_within;
    cause = i.cause;
    result = i.result;
  }

  with_metrics :
      (m : Metrics.State)
      → MetricsLaws.IsSound m
      → Within m.ctx_done s.cancelled
      → IsSound cancellable (record s { metrics = m })
  with_metrics m sound within = record {
    health_sound = i.health_sound;
    metrics_sound = sound;
    relay_sound = i.relay_sound;
    health_within = i.health_within;
    metrics_within = within;
    relay_within = i.relay_within;
    cause = i.cause;
    result = i.result;
  }

  with_relay :
      (r : Grpc.State)
      → GrpcLaws.IsSound r
      → Within r.ctx_done s.cancelled
      → IsSound cancellable (record s { relay = r })
  with_relay r sound within = record {
    health_sound = i.health_sound;
    metrics_sound = i.metrics_sound;
    relay_sound = sound;
    health_within = i.health_within;
    metrics_within = i.metrics_within;
    relay_within = within;
    cause = i.cause;
    result = i.result;
  }

  health_moved :
      (h : Grpc.State)
      → Grpc.Step s.health h
      → h.ctx_done ≡ s.health.ctx_done
      → IsSound cancellable (record s { health = h })
  health_moved h st e =
      with_health h (GrpcLaws.Step-IsSound s.health h st i.health_sound)
        (λ d. i.health_within (sym e ∙ d))

  metrics_moved :
      (m : Metrics.State)
      → Metrics.Step s.metrics m
      → m.ctx_done ≡ s.metrics.ctx_done
      → IsSound cancellable (record s { metrics = m })
  metrics_moved m st e =
      with_metrics m (MetricsLaws.Step-IsSound s.metrics m st i.metrics_sound)
        (λ d. i.metrics_within (sym e ∙ d))

  relay_moved :
      (r : Grpc.State)
      → Grpc.Step s.relay r
      → r.ctx_done ≡ s.relay.ctx_done
      → IsSound cancellable (record s { relay = r })
  relay_moved r st e =
      with_relay r (GrpcLaws.Step-IsSound s.relay r st i.relay_sound)
        (λ d. i.relay_within (sym e ∙ d))

  -- The context of the group is done, with the cause that it has, and `first` may be set.
  with_cancelled :
      (first : Option Error)
      → s.main ≡ in_wait
      → (cancellable ≡ true) ⊎ ((e : Error) × (first ≡ some e))
      → IsSound cancellable (record s { first = first; cancelled = true })
  with_cancelled first w c = record {
    health_sound = i.health_sound;
    metrics_sound = i.metrics_sound;
    relay_sound = i.relay_sound;
    health_within = λ _. refl;
    metrics_within = λ _. refl;
    relay_within = λ _. refl;
    cause = λ _ _. c;
    result = λ r h. absurd (cc (w, h));
  }

  health_nil : s.health.main ≡ Grpc.returned none → s.cancelled ≡ true
  health_nil h = i.health_within (GrpcLaws.nil-done s.health i.health_sound h)

  -- If no function has failed and all have returned, the context was done from outside.
  all_nil : s.main ≡ in_wait → AllReturned s → s.first ≡ none → cancellable ≡ true
  all_nil w a e = go a.health_result a.health_over a.health_noted
    where
      outside : (cancellable ≡ true) ⊎ ((f : Error) × (s.first ≡ some f)) → cancellable ≡ true
      outside (inl c) = c
      outside (inr (f, g)) = absurd (cc (e, g))

      go :
          (r : Option Error)
          → s.health.main ≡ Grpc.returned r
          → IsNoted r s.first
          → cancellable ≡ true
      go none h n = outside (i.cause w (health_nil h))
      go (some f) h n = absurd (cc (e, n.1))

relay_start-IsSound : (server : Result Server) → GrpcLaws.IsSound (relay_start server)
unfolding relay_start
relay_start-IsSound (ok server) = GrpcLaws.init-IsSound
relay_start-IsSound (err e) = GrpcLaws.returned-IsSound e

relay_start-undone : (server : Result Server) → (relay_start server).ctx_done ≡ false
unfolding relay_start
relay_start-undone (ok server) = refl
relay_start-undone (err e) = refl

module _ {cancellable : Bool} where
  Bound-IsSound : (s u : State) → Bound s u → IsSound cancellable s → IsSound cancellable u
  Bound-IsSound s u (health_goes {h} b) i =
      health_moved s i h (Grpc.onward (Grpc.onward_bound b)) (GrpcLaws.Bound-ctx_done s.health h b)
  Bound-IsSound s u (metrics_goes {m} b) i =
      metrics_moved s i m (Metrics.bound b) (MetricsLaws.Bound-ctx_done s.metrics m b)
  Bound-IsSound s u (relay_goes {r} b) i =
      relay_moved s i r (Grpc.onward (Grpc.onward_bound b)) (GrpcLaws.Bound-ctx_done s.relay r b)
  Bound-IsSound s u (tell_health c n) i =
      with_health s i _ (GrpcLaws.Step-IsSound s.health _ (Grpc.cancel n) i.health_sound) (λ _. c)
  Bound-IsSound s u (tell_metrics c n) i =
      with_metrics s i _ (MetricsLaws.Step-IsSound s.metrics _ (Metrics.cancel n) i.metrics_sound)
        (λ _. c)
  Bound-IsSound s u (tell_relay c n) i =
      with_relay s i _ (GrpcLaws.Step-IsSound s.relay _ (Grpc.cancel n) i.relay_sound) (λ _. c)
  Bound-IsSound s u (notes e w f n) i = with_cancelled s i (some e) w (inr (e, refl))
  Bound-IsSound s u (waits w a) i = record {
    health_sound = i.health_sound;
    metrics_sound = i.metrics_sound;
    relay_sound = i.relay_sound;
    health_within = λ _. refl;
    metrics_within = λ _. refl;
    relay_within = λ _. refl;
    cause = λ h _. absurd (cc h);
    result = λ r h. let e : s.first ≡ r = cc h in ((λ n. all_nil s i w a (e ∙ n)), e);
  }

  pub Step-IsSound :
      (s u : State) → Step cancellable s u → IsSound cancellable s → IsSound cancellable u
  Step-IsSound s u (bound b) i = Bound-IsSound s u b i
  Step-IsSound s u (health_moves {h} st e) i = health_moved s i h st e
  Step-IsSound s u (metrics_moves {m} st e) i = metrics_moved s i m st e
  Step-IsSound s u (relay_moves {r} st e) i = relay_moved s i r st e
  Step-IsSound s u (outer_done c w n) i = with_cancelled s i s.first w (inl c)

  init-IsSound : (server : Result Server) → IsSound cancellable (init server)
  init-IsSound server = record {
    health_sound = GrpcLaws.init-IsSound;
    metrics_sound = MetricsLaws.init-IsSound;
    relay_sound = relay_start-IsSound server;
    health_within = λ h. h;
    metrics_within = λ h. h;
    relay_within = λ h. absurd (cc (relay_start-undone server, h));
    cause = λ w h. absurd (cc h);
    result = λ r h. absurd (cc h);
  }

  pub Runs-IsSound :
      (server : Result Server) {n : ℕ} {s : State}
      → Runs (Step cancellable) (init server) n s
      → IsSound cancellable s
  Runs-IsSound server r = Runs-keep (IsSound cancellable) Step-IsSound r (init-IsSound server)

-- Under a context that cannot be done, such as that of main, Run returns only with an error.
pub run_never_nil :
    (server : Result Server) {n : ℕ} {s : State} (r : Option Error)
    → Runs (Step false) (init server) n s
    → s.main ≡ finished r
    → (e : Error) × (r ≡ some e)
run_never_nil server none runs h = absurd (cc (((Runs-IsSound server runs).result none h).0 refl))
run_never_nil server (some e) runs h = (e, refl)
