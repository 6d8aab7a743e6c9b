-- ===== src/Handlers/Tally.antt =====
-- How often an effect of a kind stands in the trace of a run of Process.
use ohttp_relay.Prelude.{ℕ, ◌+◌, ◌≡◌, refl, List, [], ◌∷◌, ◌++◌, pos, negsuc, arith, All}
use ohttp_relay.Text.{Unicode}
use ohttp_relay.Exec.{active_requests, requests_total, count, Effect, measure, Trace, Env, ◌>>=◌}
use ohttp_relay.Exec.Does.{Does}
use ohttp_relay.Metrics.{record_request}
use ohttp_relay.Handlers.Server.{Server}
use ohttp_relay.Handlers.Process.{
  Input, Step, continue, return, Outcome, waiting, returned, new_loop, rounds, deferred, conclude,
  process,
}

abbrev pub tally : (Effect → ℕ) → Trace → ℕ
tally f [] = 0
tally f (e ∷ t) = f e + tally f t

-- A stream begins, a stream ends, and a request is recorded.
abbrev pub begins : Effect → ℕ
begins (measure active_requests (count (pos n)) a) = 1
begins _ = 0

abbrev pub ends : Effect → ℕ
ends (measure active_requests (count (negsuc n)) a) = 1
ends _ = 0

abbrev pub recorded : Effect → ℕ
recorded (measure requests_total m a) = 1
recorded _ = 0

-- none of the three
abbrev pub IsInner : Effect → Type 0
IsInner e = (begins e ≡ 0) × (ends e ≡ 0) × (recorded e ≡ 0)

abbrev pub finished : Outcome → ℕ
finished (waiting l) = 0
finished (returned e) = 1

pub tally-append : (f : Effect → ℕ) (s t : Trace) → tally f (s ++ t) ≡ tally f s + tally f t
tally-append f [] t = omega arith
tally-append f (e ∷ s) t = omega (arith, tally-append f s t)

tally_of_All :
    (f : Effect → ℕ) (P : Effect → Type 0)
    → ((e : Effect) → P e → f e ≡ 0)
    → (s : Trace) → All P s
    → tally f s ≡ 0
tally_of_All f P z [] _ = refl
tally_of_All f P z (e ∷ s) (p, ps) = omega (arith, z e p, tally_of_All f P z s ps)

-- The counts of a trace from which a stream starts with `n`, `m` and `k`.
pub record Counts (t : Trace) (b e r : ℕ) : Type 0 where
  pub begun : tally begins t ≡ b
  pub ended : tally ends t ≡ e
  pub counted : tally recorded t ≡ r

conclude-Counts :
    ⦃u : Unicode⦄ (env : Env) (start : ℕ) (step : Step) (t : Trace)
    → Counts t 1 0 0
    → let r = conclude start step env t in Counts r.1 1 (finished r.0) (finished r.0)
unfolding conclude deferred record_request ◌>>=◌
conclude-Counts env start (continue l) t c = c
conclude-Counts env start (return l e) t c = record {
  begun = simp tally-append (omega (arith, c.begun));
  ended = simp tally-append (omega (arith, c.ended));
  counted = simp tally-append (omega (arith, c.counted));
}

pub process-Counts :
    ⦃u : Unicode⦄ (env : Env) (s : Server) (inputs : List Input) {Q : Step → Type 0}
    → Does env IsInner Q (rounds s inputs new_loop)
    → let r = process s inputs env [] in Counts r.1 1 (finished r.0) (finished r.0)
unfolding process ◌>>=◌
process-Counts env s inputs d =
    let t0 : Trace = measure active_requests (count (pos 1)) [] ∷ [] in
    let (added, e, p, q) = d.at t0 in
    conclude-Counts env (env.now t0) (rounds s inputs new_loop env t0).0
      (rounds s inputs new_loop env t0).1
      (record {
        begun = rw e (omega (arith, tally_of_All begins IsInner (λ e p. p.0) added p));
        ended = rw e (omega (arith, tally_of_All ends IsInner (λ e p. p.1) added p));
        counted = rw e (omega (arith, tally_of_All recorded IsInner (λ e p. p.2) added p));
      })
