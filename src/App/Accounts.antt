-- ===== src/App/Accounts.antt =====
-- What the metrics of a request say, against what the started relay has received and sent.
use ohttp_relay.Prelude.{
  ℕ, ◌≡◌, ap, ◌∙◌, Option, List, [], ◌∷◌, ◌++◌, arith, ℤ, pos, negsuc, int64, int64_congruent,
  append_assoc, sub_ℕ,
}
use ohttp_relay.Text.{Text, codes, Unicode}
use ohttp_relay.Fault.{Error, ok}
use ohttp_relay.Exec.{
  Env, Trace, Effect, measure, count, duration, active_requests, requests_total, request_duration,
  request_size_bytes, response_size_bytes, ◌>>=◌,
}
use ohttp_relay.Metrics.{record_request, status_category}
use ohttp_relay.Config.{Config}
use ohttp_relay.Handlers.Server.{Server}
use ohttp_relay.Handlers.Process.{
  Input, Loop, Step, continue, return, returned, new_loop, rounds, recorded_method, deferred,
  conclude, process,
}
use ohttp_relay.Handlers.Accounts.{total_received, total_sent, last_status, loop_of, Counts}
use ohttp_relay.Handlers.Accounts.Rounds.{HasQuietParts, consumed, rounds-Counts}
use ohttp_relay.App.{Pings, run_relay_server}
use ohttp_relay.App.Wiring.{run_relay_server-eq}
use ohttp_relay.App.Effects.{server-Permits}

-- The parts of the started server send nothing to Envoy.
started-HasQuietParts :
    ⦃u : Unicode⦄ (env : Env) (cfg : Config) (pings : Pings) (cert : Option Error) (s : Server)
    → run_relay_server cfg pings cert ≡ ok s
    → HasQuietParts env s
started-HasQuietParts env cfg pings cert s started =
    let (sources, chosen, e) = run_relay_server-eq cfg pings cert started in
    rw e (
      server-Permits {C = λ _. Unit} cfg pings sources chosen
        (record {
          gateway_total = λ _ _. tt;
          gateway_duration = λ _ _. tt;
          asked = λ _ _ _. tt;
          executed = λ _ _. tt;
          relayed = λ _ _ _ _ _ _. tt;
          fetched = λ _ _ _. tt;
        })
        (record {
          bytes_in = λ _ _. tt;
          bytes_out = λ _ _. tt;
          errors = λ _ _. tt;
          logged = λ _ _ _. tt;
          error_sent = λ _. tt;
          opaque_sent = λ _ _. tt;
          keys_sent = λ _ _. tt;
          captured = λ _ _ _. tt;
          configured = λ _ _. tt;
          cleared = λ _ _. tt;
          appended = λ _ _ _ _ _. tt;
        }))

abbrev pub opened : Effect
opened = measure active_requests (count (pos 1)) []

-- how a stream is recorded, with the method, the time, the status and the two sizes
abbrev pub recorded : Text → ℤ → ℕ → ℤ → ℤ → Trace
recorded method time status_code request_size response_size =
    let attrs : List (Text × Text) =
      (codes "method", method) ∷ (codes "status_category", status_category status_code) ∷ [] in
    measure requests_total (count (pos 1)) attrs
    ∷ measure request_duration (duration time) attrs
    ∷ measure request_size_bytes (count request_size) attrs
    ∷ measure response_size_bytes (count response_size) attrs
    ∷ measure active_requests (count (negsuc 0)) []
    ∷ []

module _ ⦃u : Unicode⦄ (env : Env) where
  deferred-eq :
      (start : ℕ) (l : Loop) (t : Trace)
      → (deferred start l env t).1
        ≡ t
          ++ recorded
              (recorded_method l.st.http_method)
              (sub_ℕ (env.now t) start)
              l.status_code
              (int64 l.req_size)
              (int64 l.resp_size)
  unfolding deferred record_request ◌>>=◌
  deferred-eq start l t = simp append_assoc

  conclude-eq :
      (start n : ℕ) (step : Step) (t inner : Trace) (e : Option Error)
      → t ≡ opened ∷ inner
      → Counts env new_loop n (loop_of step) inner
      → (conclude start step env t).0 ≡ returned e
      → (method : Text) × (time : ℤ) × ((conclude start step env t).1
          ≡ (opened ∷ inner)
            ++ recorded method time
                (last_status env.status_number 200 inner)
                (int64 n)
                (int64 (total_sent inner)))
  unfolding conclude ◌>>=◌
  conclude-eq start n (continue l) t inner e grown c h = absurd (cc h)
  conclude-eq start n (return l f) t inner e grown c h =
      let received = int64_congruent l.req_size n (omega (arith, c.received)) in
      let sent = int64_congruent l.resp_size (total_sent inner) (omega (arith, c.sent)) in
      (
        recorded_method l.st.http_method,
        sub_ℕ (env.now (opened ∷ inner)) start,
        ap (λ (v : Trace). (deferred start l env v).1) grown
            ∙ deferred-eq start l (opened ∷ inner)
            ∙ λ i.
                (opened ∷ inner)
                ++ recorded (recorded_method l.st.http_method)
                    (sub_ℕ (env.now (opened ∷ inner)) start) (c.status i) (received i) (sent i),
      )

-- If a run of the started server has returned, then it has recorded the request, as the last it did,
-- with the number of bytes of the chunks that it has consumed, the number of bytes of the bodies that
-- it has handed to Send, both as int64, and the category of the status of the last of these, or of 200.
pub process_accounts :
    ⦃u : Unicode⦄ (env : Env) (cfg : Config) (pings : Pings) (cert : Option Error) (s : Server)
    (inputs : List Input) (e : Option Error)
    → run_relay_server cfg pings cert ≡ ok s
    → (process s inputs env []).0 ≡ returned e
    → (inner : Trace) × (method : Text) × (time : ℤ) × ((process s inputs env []).1
        ≡ (opened ∷ inner)
          ++ recorded method time
              (last_status env.status_number 200 inner)
              (int64 (total_received (consumed env s inputs new_loop (opened ∷ []))))
              (int64 (total_sent inner)))
unfolding process ◌>>=◌
process_accounts env cfg pings cert s inputs e started h =
    let t0 : Trace = opened ∷ [] in
    let p = started-HasQuietParts env cfg pings cert s started in
    let (inner, grown, c) = rounds-Counts env s p inputs new_loop t0 in
    let (method, time, summed) =
      conclude-eq env (env.now t0) _ (rounds s inputs new_loop env t0).0
        (rounds s inputs new_loop env t0).1 inner e grown c h in
    (inner, method, time, summed)
