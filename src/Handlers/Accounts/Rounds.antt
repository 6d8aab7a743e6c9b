-- ===== src/Handlers/Accounts/Rounds.antt =====
-- The rounds of Process count what they receive and what they hand to Send.
use ohttp_relay.Prelude.{
  ℕ, ◌+◌, ◌%◌, ◌^◌, ◌≡◌, refl, ap, ◌∙◌, Bool, true, false, ◌||◌, Option, none, some, List, [], ◌∷◌,
  ◌++◌, arith, length, append_assoc, if◌then◌else◌,
}
use ohttp_relay.Text.{Bytes, Unicode}
use ohttp_relay.Fault.{Error, Result, ok, err, is, equals, end_of_file, canceled}
use ohttp_relay.Envoy.{
  ProcessingRequest, request_headers, request_body, request_trailers, response_headers,
  response_body, other, ProcessingResponse, immediate_response,
}
use ohttp_relay.Exec.{Trace, Env, Exec, send, pure, ◌>>=◌}
use ohttp_relay.Exec.Does.{All-Composes, Does, Any, Does-ask, Does-emit}
use ohttp_relay.Metrics.{record_error}
use ohttp_relay.Handlers.Server.{Server, StreamState, Responses}
use ohttp_relay.Handlers.Process.{
  Input, done, received, Loop, Step, continue, return, note_response, after_send, send_responses,
  dispatch_result, is_too_large, on_request_body, handle_request, round, proceed, rounds,
}
use ohttp_relay.Handlers.Effects.{PermitsTo}
use ohttp_relay.Handlers.Effects.Requests.{
  Permits-Within, immediate_error_response-Adds, on_request_headers-Adds, forward_and_respond-Adds,
}
use ohttp_relay.Handlers.Accounts.{
  chunk_bytes, total_received, IsQuiet, loop_of, Counts, Counts-refl, Counts-trans, Tracks,
  Tracks-pure, Tracks-after,
}

-- the parts of the server send nothing
abbrev pub HasQuietParts : ⦃u : Unicode⦄ → Env → Server → Type 0
HasQuietParts env s = PermitsTo env IsQuiet (λ _. Unit) (λ _. Unit) (λ _. Unit) s

-- the inputs of a run up to the one at which Process returns
abbrev pub consumed : ⦃u : Unicode⦄ → Env → Server → List Input → Loop → Trace → List Input
consumed env s [] l t = []
consumed env s (i ∷ inputs) l t = i ∷ (elim (round s i l env t).0 [
  | continue l' ↦ consumed env s inputs l' (round s i l env t).1
  | return l' e ↦ []
])

-- what a run from `t` counts, if it consumes `used` and comes to `r`
abbrev pub HasCounted : Env → Loop → Trace → List Input → Step × Trace → Type 0
HasCounted env l t used r =
    (added : Trace) × (r.1 ≡ t ++ added) × Counts env l (total_received used) (loop_of r.0) added

module _ (env : Env) where
  note_response-Counts :
      (r : ProcessingResponse) (l : Loop)
      → Counts env l 0 (note_response env.status_number r l) (send r ∷ [])
  unfolding note_response
  note_response-Counts (immediate_response ir) l = record {
    received = omega arith;
    sent = omega arith;
    status = refl;
  }

  record_error-IsQuiet : (t : List ℕ) → Does env IsQuiet Any (record_error t)
  unfolding record_error
  record_error-IsQuiet t = Does-emit _ tt

  after_send-Tracks :
      (l : Loop) (rest : Exec Step) (failure : Option Error)
      → Tracks env l 0 rest
      → Tracks env l 0 (after_send l rest failure)
  unfolding after_send
  after_send-Tracks l rest none k = k
  after_send-Tracks l rest (some e) k =
      Tracks-after env l 0 (record_error-IsQuiet _)
        (λ _ _. Tracks-pure env l 0 _ (Counts-refl env l))

  -- Counting goes on from a later loop.
  Tracks-from :
      {l l' : Loop} {n : ℕ} {m : Exec Step}
      → Counts env l n l' []
      → Tracks env l' 0 m
      → Tracks env l n m
  Tracks-from {n} c k = record {
    at = λ t. let (s, e, d) = k.at t in (s, e, Counts-trans env c d n (omega arith));
  }

  send_responses-Tracks : (rs : Responses) (l : Loop) → Tracks env l 0 (send_responses rs l)
  unfolding send_responses ◌>>=◌
  send_responses-Tracks [] l = Tracks-pure env l 0 (continue l) (Counts-refl env l)
  send_responses-Tracks (r ∷ rs) l = record {
    at = λ t.
        let l' = note_response env.status_number r l in
        let (s, e, c) =
          (after_send-Tracks l' (send_responses rs l') (env.send_error t r)
              (send_responses-Tracks rs l')).at
            (t ++ send r ∷ []) in
        (
          send r ∷ s,
          e ∙ append_assoc t (send r ∷ []) s,
          Counts-trans env (note_response-Counts r l) c 0 (omega arith),
        );
  }

  dispatch_result-Tracks : (r : Result Responses) (l : Loop) → Tracks env l 0 (dispatch_result r l)
  unfolding dispatch_result
  dispatch_result-Tracks (ok rs) l = send_responses-Tracks rs l
  dispatch_result-Tracks (err e) l = Tracks-after env l 0 (record_error-IsQuiet _) λ _ _.
      Tracks-after env l 0 (Does-ask {Q = Any} _ (λ t. tt))
        (λ _ _. Tracks-pure env l 0 _ (Counts-refl env l))

  Tracks-if :
      (b : Bool) {l : Loop} {n : ℕ} {m k : Exec Step}
      → Tracks env l n m
      → Tracks env l n k
      → Tracks env l n (if b then m else k)
  Tracks-if true tm tk = tm
  Tracks-if false tm tk = tk

  -- The state of the stream is not counted.
  restated : (l : Loop) (st : StreamState) → Counts env l 0 (record l { st = st }) []
  restated l st = record { received = omega arith; sent = omega arith; status = refl }

  chunk_counted :
      (l : Loop) (st : StreamState) (n : ℕ)
      → Counts env l n (record l { st = st; req_size = (l.req_size + n) % 2 ^ 64 }) []
  chunk_counted l st n = record { received = omega arith; sent = omega arith; status = refl }

  module _ ⦃u : Unicode⦄ (s : Server) (p : HasQuietParts env s) where
    on_request_body-Tracks :
        (chunk : Bytes) (end_of_stream : Bool) (l : Loop)
        → Tracks env l (length chunk) (on_request_body s chunk end_of_stream l)
    unfolding on_request_body
    on_request_body-Tracks chunk end_of_stream l =
        Tracks-if (is_too_large s l.st chunk)
          (Tracks-after env l (length chunk)
            (immediate_error_response-Adds (Permits-Within p) _ _ _)
            (λ rs _. Tracks-from (chunk_counted l _ (length chunk)) (send_responses-Tracks rs _)))
          (Tracks-if end_of_stream
            (Tracks-after env l (length chunk) (forward_and_respond-Adds (Permits-Within p) _ tt)
              (λ r _. Tracks-from (chunk_counted l _ (length chunk)) (dispatch_result-Tracks r _)))
            (Tracks-pure env l (length chunk) _ (chunk_counted l _ (length chunk))))

    handle_request-Tracks :
        (req : ProcessingRequest) (l : Loop)
        → Tracks env l (chunk_bytes (received (ok req))) (handle_request s req l)
    unfolding handle_request
    handle_request-Tracks (request_headers h) l =
        Tracks-after env l 0 (on_request_headers-Adds (Permits-Within p) h l.st tt)
          (λ r _. Tracks-from (restated l r.1) (dispatch_result-Tracks r.0 _))
    handle_request-Tracks (request_body chunk end_of_stream) l =
        on_request_body-Tracks chunk end_of_stream l
    handle_request-Tracks request_trailers l = Tracks-pure env l 0 _ (Counts-refl env l)
    handle_request-Tracks response_headers l = Tracks-pure env l 0 _ (Counts-refl env l)
    handle_request-Tracks response_body l = Tracks-pure env l 0 _ (Counts-refl env l)
    handle_request-Tracks other l =
        Tracks-after env l 0 (record_error-IsQuiet _)
          (λ _ _. Tracks-pure env l 0 _ (Counts-refl env l))

    round-Tracks : (i : Input) (l : Loop) → Tracks env l (chunk_bytes i) (round s i l)
    unfolding round
    round-Tracks (done e) l = Tracks-pure env l 0 _ (Counts-refl env l)
    round-Tracks (received (err e)) l =
        Tracks-if (equals end_of_file e || is canceled e)
          (Tracks-pure env l 0 _ (Counts-refl env l))
          (Tracks-after env l 0 (record_error-IsQuiet _)
            (λ _ _. Tracks-pure env l 0 _ (Counts-refl env l)))
    round-Tracks (received (ok req)) l = handle_request-Tracks req l

    proceed-Counts :
        (i : Input) (inputs : List Input) (l : Loop) (t : Trace) (step : Step) (t' s' : Trace)
        → ((l' : Loop) (t'' : Trace)
            → HasCounted env l' t'' (consumed env s inputs l' t'') (rounds s inputs l' env t''))
        → t' ≡ t ++ s'
        → Counts env l (chunk_bytes i) (loop_of step) s'
        → HasCounted env l t
            (i ∷ (elim step [ continue l' ↦ consumed env s inputs l' t' | return l' e ↦ [] ]))
            (proceed (rounds s inputs) step env t')
    unfolding proceed pure
    proceed-Counts i inputs l t (continue l') t' s' k e c =
        let (added, grown, d) = k l' t' in
        (
          s' ++ added,
          grown ∙ ap (λ (v : Trace). v ++ added) e ∙ append_assoc t s' added,
          Counts-trans env c d _ refl,
        )
    proceed-Counts i inputs l t (return l' f) t' s' k e c =
        (s', e, record { received = omega (arith, c.received); sent = c.sent; status = c.status })

    -- The rounds count the chunks of what they consume, and the responses in the effects that they add.
    pub rounds-Counts :
        (inputs : List Input) (l : Loop) (t : Trace)
        → HasCounted env l t (consumed env s inputs l t) (rounds s inputs l env t)
    unfolding rounds ◌>>=◌
    rounds-Counts [] l t = (Tracks-pure env l 0 (continue l) (Counts-refl env l)).at t
    rounds-Counts (i ∷ inputs) l t =
        let (s', e, c) = (round-Tracks i l).at t in
        proceed-Counts i inputs l t (round s i l env t).0 (round s i l env t).1 s'
          (rounds-Counts inputs) e c
