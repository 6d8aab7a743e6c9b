-- ===== src/App/Safety.antt =====
-- What the gateway, Envoy and the metrics see of a run of the relay, whatever the messages are and
-- whatever the services answer.
use ohttp_relay.Prelude.{
  ℕ, ◌+◌, ◌^◌, ◌≤◌, ◌<◌, ◌≡◌, refl, ◌⊎◌, inl, inr, false, Option, List, [], ◌∷◌, ◌++◌, pos, arith,
  All, length, length-append, int64, ltb_ℤ, ap, ◌∙◌,
}
use ohttp_relay.Text.{Text, Bytes, Unicode, is_empty, codes, text_eq, equal_fold}
use ohttp_relay.Fault.{Error, ok}
use ohttp_relay.Http.{HttpResponse, set_header}
use ohttp_relay.Exec.{Effect, Env, Trace, http_do, send}
use ohttp_relay.Gateway.Effects.{FromKeyConfig}
use ohttp_relay.Relay.{relay_header, relay_request}
use ohttp_relay.Config.{Config}
use ohttp_relay.Handlers.Response.{
  content_type_ohttp_res, content_type_ohttp_keys, error_response, ok_response,
}
use ohttp_relay.Handlers.Server.{Server, StreamState, new_server, capture, is_foreign}
use ohttp_relay.Handlers.Process.{Input, new_loop, is_too_large, process}
use ohttp_relay.Handlers.Tally.{IsInner, finished, Counts, process-Counts}
use ohttp_relay.Handlers.Effects.{Chunks, IsGood, IsForwardable}
use ohttp_relay.App.{Pings, Sources, run_relay_server}
use ohttp_relay.App.Wiring.{server_of, run_relay_server-eq}
use ohttp_relay.App.Effects.{
  Unmeasured-Measures, Unmeasured-Closed, Chunks-any, rounds_of_server-Does, process_of_server-Does,
}

-- The effects of one run, from an empty trace.
abbrev pub trace_of : ⦃u : Unicode⦄ → Server → List Input → Env → Trace
trace_of s inputs env = (process s inputs env []).1

-- A request of the relay with exactly two headers: those of a forwarded body, whose content type is
-- the relay's own, or one that is not that of an encapsulated request in any case of its letters; or
-- those of a request for a key configuration, which has no body.
abbrev pub IsClean : ⦃u : Unicode⦄ → Effect → Type 0
IsClean (http_do req) =
    ((c : Text) × ((c ≡ codes "message/ohttp-req")
        ⊎ ((is_empty c ≡ false) × (equal_fold c (codes "message/ohttp-req") ≡ false)))
      × (req.header ≡ (codes "Content-Type", c) ∷ (codes "User-Agent", []) ∷ []))
    ⊎ ((req.method ≡ codes "GET")
        × (req.body ≡ [])
        × (req.header
            ≡ (codes "Accept", codes "application/ohttp-keys")
              ∷ (codes "User-Agent", codes "ohttp-relay")
              ∷ []))
IsClean _ = Unit

relay_header-eq :
    (c : Text)
    → is_empty c ≡ false
    → relay_header c ≡ (codes "Content-Type", c) ∷ (codes "User-Agent", []) ∷ []
unfolding relay_header text_eq
relay_header-eq c h = rw h

forwardable_type :
    ⦃u : Unicode⦄ (c : Text)
    → IsForwardable c
    → (c ≡ codes "message/ohttp-req")
      ⊎ ((is_empty c ≡ false) × (equal_fold c (codes "message/ohttp-req") ≡ false))
unfolding is_foreign
forwardable_type c (inl own) = inl own
forwardable_type c (inr foreign) = inr (ground arith, ground arith)

forwardable_full : ⦃u : Unicode⦄ (c : Text) → IsForwardable c → is_empty c ≡ false
unfolding is_foreign is_empty
forwardable_full c (inl own) = rw own refl
forwardable_full c (inr foreign) = ground arith

-- A response that the relay may send: an error whose text depends on its code alone, the body of a
-- complete 2xx response of the gateway, or the body of a key configuration answered with 200.
abbrev pub IsHonest : Env → Effect → Type 0
IsHonest env (send r) =
    ((code : ℕ) × (r ≡ error_response code))
    ⊎ ((resp : HttpResponse) × IsGood env resp × (r ≡ ok_response content_type_ohttp_res resp.body))
    ⊎ ((b : Bytes) × FromKeyConfig env (ok b) × (r ≡ ok_response content_type_ohttp_keys b))
IsHonest env _ = Unit

module _ ⦃u : Unicode⦄ (env : Env) (cfg : Config) (pings : Pings) (cert : Option Error) (s : Server)
    (inputs : List Input) (started : run_relay_server cfg pings cert ≡ ok s) where
  -- Every request that the relay hands to the HTTP client has exactly two headers, which the relay
  -- sets itself: those of a request for a key configuration, or, with an empty User-Agent, the content
  -- type message/ohttp-req, in place of which only a content type that is not empty and not this one
  -- in other letter case is passed on.
  pub process-IsClean : All IsClean (trace_of s inputs env)
  unfolding relay_request set_header text_eq
  process-IsClean =
      process_of_server-Does {I = λ _. Unit} {C = λ _. Unit} cfg pings cert started
        (Unmeasured-Measures (λ _ _ _. tt))
        (record {
          gateway_total = λ _ _. tt;
          gateway_duration = λ _ _. tt;
          asked = λ _ _ _. tt;
          executed = λ _ _. tt;
          relayed = λ st url ct _ h _.
              inl (ct, forwardable_type ct h, relay_header-eq ct (forwardable_full ct h));
          fetched = λ host url _. inr (refl, refl, refl);
        })
        (Unmeasured-Closed s (λ _ _ _. tt) (λ _ _ _. tt) (λ _. tt) (λ _ _. tt) (λ _ _. tt)) inputs
        (Chunks-any inputs) tt

  -- Every response to Envoy is an error of a fixed text, or passes on what a gateway has answered.
  pub process-IsHonest : All (IsHonest env) (trace_of s inputs env)
  process-IsHonest =
      process_of_server-Does {I = λ _. Unit} {C = λ _. Unit} cfg pings cert started
        (Unmeasured-Measures (λ _ _ _. tt))
        (record {
          gateway_total = λ _ _. tt;
          gateway_duration = λ _ _. tt;
          asked = λ _ _ _. tt;
          executed = λ _ _. tt;
          relayed = λ _ _ _ _ _ _. tt;
          fetched = λ _ _ _. tt;
        })
        (Unmeasured-Closed s (λ _ _ _. tt) (λ _ _ _. tt) (λ code. inl (code, refl))
          (λ resp good. inr (inl (resp, good, refl))) (λ b from. inr (inr (b, from, refl))))
        inputs (Chunks-any inputs) tt

  -- Whatever ends the stream, it is counted once as active, it is counted off and recorded once if
  -- Process has returned, and neither if it has not.
  pub process-Counts_of_server :
      let r = process s inputs env [] in Counts r.1 1 (finished r.0) (finished r.0)
  process-Counts_of_server = process-Counts env s inputs (
      rounds_of_server-Does {P = IsInner} {I = λ _. Unit} {C = λ _. Unit} cfg pings cert started
        (record {
          gateway_total = λ _ _. (refl, refl, refl);
          gateway_duration = λ _ _. (refl, refl, refl);
          asked = λ _ _ _. (refl, refl, refl);
          executed = λ _ _. (refl, refl, refl);
          relayed = λ _ _ _ _ _ _. (refl, refl, refl);
          fetched = λ _ _ _. (refl, refl, refl);
        })
        (record {
          bytes_in = λ _ _. (refl, refl, refl);
          bytes_out = λ _ _. (refl, refl, refl);
          errors = λ _ _. (refl, refl, refl);
          logged = λ _ _ _. (refl, refl, refl);
          error_sent = λ _. (refl, refl, refl);
          opaque_sent = λ _ _. (refl, refl, refl);
          keys_sent = λ _ _. (refl, refl, refl);
          captured = λ _ _ _. tt;
          configured = λ _ _. tt;
          cleared = λ _ _. tt;
          appended = λ _ _ _ _ _. tt;
        })
        inputs new_loop (Chunks-any inputs) tt)

-- Each chunk of a body is shorter than `k`.
abbrev pub ChunksBelow : ℕ → List Input → Type 0
ChunksBelow k = All (Chunks (λ chunk. length chunk < k))

-- A request to a gateway whose body has at most `m` bytes.
abbrev pub IsBounded : ℕ → Effect → Type 0
IsBounded m (http_do req) = length req.body ≤ m
IsBounded m _ = Unit

below_limit :
    (m a b : ℕ)
    → m + 2 ^ 32 ≤ 2 ^ 63
    → a ≤ m
    → b < 2 ^ 32
    → ltb_ℤ (pos m) (int64 (a + b)) ≡ false
    → a + b ≤ m
below_limit m a b room old new small = ground arith

append_bounded :
    (s : Server) (st : StreamState) (chunk : Bytes) (m : ℕ)
    → s.max_request_body_size ≡ pos m
    → m + 2 ^ 32 ≤ 2 ^ 63
    → length st.body ≤ m
    → length chunk < 2 ^ 32
    → is_too_large s st chunk ≡ false
    → length (st.body ++ chunk) ≤ m
unfolding is_too_large
append_bounded s st chunk m limit room old new small = omega (
  arith,
  length-append st.body chunk,
  below_limit m (length st.body) (length chunk) room old new (rw limit at small),
)

limit_of_server :
    (cfg : Config) (sources : Sources) {s : Server}
    → s ≡ server_of cfg sources
    → s.max_request_body_size ≡ cfg.max_request_body_size
unfolding new_server
limit_of_server cfg sources e = ap (λ (s : Server). s.max_request_body_size) e

module _ ⦃u : Unicode⦄ (env : Env) (cfg : Config) (pings : Pings) (cert : Option Error) (s : Server)
    (inputs : List Input) (m : ℕ) where
  -- Under a limit of `m` bytes, with chunks below 2^32 bytes, no request that the relay
  -- makes has a longer body.
  pub process-IsBounded :
      run_relay_server cfg pings cert ≡ ok s
      → cfg.max_request_body_size ≡ pos m
      → m + 2 ^ 32 ≤ 2 ^ 63
      → ChunksBelow (2 ^ 32) inputs
      → All (IsBounded m) (trace_of s inputs env)
  unfolding relay_request
  process-IsBounded started limit room chunks =
      let (sources, chosen, e) = run_relay_server-eq cfg pings cert started in
      process_of_server-Does {I = λ st. length st.body ≤ m} {C = λ chunk. length chunk < 2 ^ 32} cfg
        pings cert started (Unmeasured-Measures (λ _ _ _. tt))
        (record {
          gateway_total = λ _ _. tt;
          gateway_duration = λ _ _. tt;
          asked = λ _ _ _. tt;
          executed = λ _ _. tt;
          relayed = λ st url ct i _ _. i;
          fetched = λ _ _ _. omega arith;
        })
        (record {
          bytes_in = λ _ _. tt;
          bytes_out = λ _ _. tt;
          errors = λ _ _. tt;
          logged = λ _ _ _. tt;
          error_sent = λ _. tt;
          opaque_sent = λ _ _. tt;
          keys_sent = λ _ _. tt;
          captured = λ h st i. unfold capture in i;
          configured = λ st i. i;
          cleared = λ st i. omega arith;
          appended = λ st chunk i c small.
              append_bounded s st chunk m (limit_of_server cfg sources e ∙ limit) room i c small;
        })
        inputs chunks (omega arith)
