-- ===== src/Handlers/Effects/Rounds.antt =====
-- The rounds of Process stay inside a closed set of effects, and keep the invariant of the stream
-- state.
use ohttp_relay.Prelude.{ℕ, ◌≡◌, refl, Bool, ◌||◌, none, some, List, [], ◌∷◌, All}
use ohttp_relay.Text.{Bytes, Unicode}
use ohttp_relay.Fault.{Result, ok, err, is, equals, end_of_file, canceled}
use ohttp_relay.Envoy.{
  StatusCode, ProcessingRequest, request_headers, request_body, request_trailers, response_headers,
  response_body, other, ProcessingResponse, immediate_response,
}
use ohttp_relay.Exec.{send, Effect, Trace, Env}
use ohttp_relay.Exec.Does.{
  Composes, All-Composes, Adds, Adds-pure, Adds-ask, Adds-perform, Adds-emit, Adds-if, Adds-bind,
  Does, Any,
}
use ohttp_relay.Metrics.{record_error}
use ohttp_relay.Handlers.Server.{Server, StreamState, Responses}
use ohttp_relay.Handlers.Process.{
  Input, done, received, Loop, continue, return, note_response, after_send, send_responses,
  dispatch_result, is_too_large, on_request_body, handle_request, round, proceed, rounds,
}
use ohttp_relay.Handlers.Effects.{Permits, Within, Sendable, Keeps, Chunks}
use ohttp_relay.Handlers.Effects.Requests.{
  Permits-Within, immediate_error_response-Adds, on_request_headers-Adds, forward_and_respond-Adds,
}

note_response-st :
    (number : StatusCode → ℕ) (r : ProcessingResponse) (l : Loop)
    → (note_response number r l).st ≡ l.st
unfolding note_response
note_response-st number (immediate_response ir) l = refl

module _ ⦃u : Unicode⦄ {env : Env} {M : Trace → Trace → Type 0} ⦃composes : Composes M⦄
    {R : ProcessingResponse → Type 0} {I : StreamState → Type 0} {C : Bytes → Type 0} {s : Server}
    (p : Within env M R I C s)
    (sends : (r : ProcessingResponse) → R r → (t : Trace) → M t (send r ∷ [])) where
  send_responses-Adds :
      (rs : Responses) (l : Loop) → All R rs → I l.st → Adds env M (Keeps I) (send_responses rs l)
  unfolding send_responses after_send
  send_responses-Adds [] l _ i = Adds-pure _ i
  send_responses-Adds (r ∷ rs) l (q, qs) i =
      Adds-bind {Q = λ (l' : Loop). l'.st ≡ l.st}
        (Adds-ask _ (λ t. note_response-st env.status_number r l))
        λ l' same. Adds-bind {Q = Any} (Adds-perform _ _ (sends r q) (λ t. tt)) (elim [
          | none ↦ λ _. send_responses-Adds rs l' qs (rw same i)
          | some e ↦ λ _.
              Adds-bind {Q = Any} (unfold record_error in Adds-emit _ (p.errors _ _))
                (λ _ _. Adds-pure _ tt)
        ])

  dispatch_result-Adds :
      (r : Result Responses) (l : Loop)
      → Sendable R r
      → I l.st
      → Adds env M (Keeps I) (dispatch_result r l)
  unfolding dispatch_result record_error
  dispatch_result-Adds (ok rs) l q i = send_responses-Adds rs l q i
  dispatch_result-Adds (err e) l q i =
      Adds-bind {Q = Any} (Adds-emit _ (p.errors _ _))
        λ _ _. Adds-bind {Q = Any} (Adds-ask _ (λ t. tt)) (λ _ _. Adds-pure _ tt)

  on_request_body-Adds :
      (chunk : Bytes) (end_of_stream : Bool) (l : Loop)
      → C chunk
      → I l.st
      → Adds env M (Keeps I) (on_request_body s chunk end_of_stream l)
  unfolding on_request_body
  on_request_body-Adds chunk end_of_stream l c i =
      Adds-if (is_too_large s l.st chunk)
        (λ _.
          Adds-bind (immediate_error_response-Adds p _ _ _)
            (λ rs q. send_responses-Adds rs _ q (p.cleared l.st i)))
        λ small.
          let i' = p.appended l.st chunk i c small in
          Adds-if end_of_stream
            (λ _.
              Adds-bind (forward_and_respond-Adds p _ i') (λ r q. dispatch_result-Adds r _ q i'))
            (λ _. Adds-pure _ i')

  handle_request-Adds :
      (req : ProcessingRequest) (l : Loop)
      → Chunks C (received (ok req))
      → I l.st
      → Adds env M (Keeps I) (handle_request s req l)
  unfolding handle_request record_error
  handle_request-Adds (request_headers h) l c i =
      Adds-bind (on_request_headers-Adds p h l.st i) (λ r q. dispatch_result-Adds r.0 _ q.0 q.1)
  handle_request-Adds (request_body chunk end_of_stream) l c i =
      on_request_body-Adds chunk end_of_stream l c i
  handle_request-Adds request_trailers l c i = Adds-pure _ i
  handle_request-Adds response_headers l c i = Adds-pure _ i
  handle_request-Adds response_body l c i = Adds-pure _ i
  handle_request-Adds other l c i =
      Adds-bind {Q = Any} (Adds-emit _ (p.errors _ _)) (λ _ _. Adds-pure _ tt)

  round-Adds :
      (input : Input) (l : Loop) → Chunks C input → I l.st → Adds env M (Keeps I) (round s input l)
  unfolding round record_error
  round-Adds (done e) l c i = Adds-pure _ tt
  round-Adds (received (err e)) l c i =
      Adds-if (equals end_of_file e || is canceled e) (λ _. Adds-pure _ tt)
        (λ _. Adds-bind {Q = Any} (Adds-emit _ (p.errors _ _)) (λ _ _. Adds-pure _ tt))
  round-Adds (received (ok req)) l c i = handle_request-Adds req l c i

  pub rounds-Adds :
      (inputs : List Input) (l : Loop)
      → All (Chunks C) inputs
      → I l.st
      → Adds env M (Keeps I) (rounds s inputs l)
  unfolding rounds proceed
  rounds-Adds [] l c i = Adds-pure _ i
  rounds-Adds (input ∷ inputs) l (c, cs) i =
      Adds-bind (round-Adds input l c i) (elim [
        | continue l' ↦ λ i'. rounds-Adds inputs l' cs i'
        | return l' e ↦ λ _. Adds-pure _ tt
      ])

pub rounds-Does :
    ⦃u : Unicode⦄ {env : Env} {P : Effect → Type 0} {I : StreamState → Type 0} {C : Bytes → Type 0}
    {s : Server} (p : Permits env P I C s) (inputs : List Input) (l : Loop)
    → All (Chunks C) inputs
    → I l.st
    → Does env P (Keeps I) (rounds s inputs l)
rounds-Does p inputs l c i = rounds-Adds (Permits-Within p) (λ r q t. (q, tt)) inputs l c i
