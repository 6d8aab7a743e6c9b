-- ===== src/Handlers/Exchange.antt =====
-- server.go: the loop of Process over the messages of one request, against a description of the
-- exchange that knows no messages: one call of the relayer with the whole body, and its answer.
use ohttp_relay.Prelude.{
  ℕ, ◌+◌, ◌%◌, ◌^◌, ◌≤◌, ◌<◌, ◌≡◌, refl, ap, ◌∙◌, Option, none, List, [], ◌∷◌, ◌++◌, arith, pos,
  length,
}
use ohttp_relay.Text.{Bytes, codes, Unicode}
use ohttp_relay.Text.Laws.{text_eq_iff, is_empty_iff}
use ohttp_relay.Fault.{Result, ok, err, sentinel, end_of_file, is}
use ohttp_relay.Envoy.{HttpHeaders, request_headers}
use ohttp_relay.Exec.{
  Env, Trace, Exec, pure, ask, emit, measure, active_requests, count, ◌>>=◌, ◌>>◌,
}
use ohttp_relay.Gateway.{ohttp_configs_path}
use ohttp_relay.Handlers.Response.{content_type_ohttp_req, extract_header_value}
use ohttp_relay.Handlers.Server.{
  Server, StreamState, Responses, capture, lower_header, finish_forward, forward_and_respond,
  check_request, on_request_headers,
}
use ohttp_relay.Handlers.Process.{
  Input, received, Loop, Step, continue, return, Outcome, new_loop, send_responses, dispatch_result,
  handle_request, round, proceed, rounds, conclude, process,
}
use ohttp_relay.Handlers.Checks.{Passes, is_foreign_iff}
use ohttp_relay.Handlers.Body.{
  chunk_inputs, final_input, joined, with_body, chunking_irrelevant, final_step, forwarded_request,
}

-- the end of the stream
abbrev pub end_input : Input
end_input = received (err (sentinel end_of_file))

-- The stream ends after a step.
abbrev pub close : Step → Step
close (continue l) = return l none
close (return l e) = return l e

module _ ⦃u : Unicode⦄ where
  -- what the exchange knows of the request
  abbrev pub exchange_loop : Option HttpHeaders → Bytes → Loop
  exchange_loop h body = record {
    st = record (capture h new_loop.st) { body = body };
    req_size = length body % 2 ^ 64;
    resp_size = 0;
    status_code = 200;
  }

  -- The exchange: the relayer is called, its answer is turned into responses, these are sent, and the
  -- request is recorded.
  unfoldable pub exchange : Server → Option HttpHeaders → Bytes → Exec Outcome
  exchange s h body = do
    emit (measure active_requests (count (pos 1)) [])
    start ← ask (λ env t. env.now t)
    r ←
        s.relayer (lower_header h (codes ":authority") (codes "host")) body content_type_ohttp_req
          (codes "post")
    responses ← finish_forward s (exchange_loop h body).st r
    step ← dispatch_result responses (exchange_loop h body)
    conclude start (close step)

  with_body-fresh :
      (h : Option HttpHeaders) (body : Bytes)
      → with_body (record new_loop { st = capture h new_loop.st }) body ≡ exchange_loop h body
  unfolding capture
  with_body-fresh h body =
      let size : (0 + length body) % 2 ^ 64 ≡ length body % 2 ^ 64 = omega arith in
      λ i. record (exchange_loop h body) { req_size = size i }

  check_request-pass :
      (h : Option HttpHeaders) (old : StreamState) (env : Env) (t : Trace)
      → Passes h
      → check_request h (capture h old) env t ≡ (ok [], t)
  unfolding check_request capture ◌>>=◌
  check_request-pass h old env t p =
      let foreign =
        (is_foreign_iff (extract_header_value h (codes "content-type"))).1 p.content_type in
      let given = p.length_given in
      let ne_zero = p.length_ne_zero in
      let post = p.post in
      ground (
        arith,
        text_eq_iff (lower_header h (codes ":method") (codes "method")) (codes "post"),
        is_empty_iff (extract_header_value h (codes "content-length")),
        text_eq_iff (extract_header_value h (codes "content-length")) (codes "0"),
      )

  on_request_headers-pass :
      (s : Server) (h : Option HttpHeaders) (old : StreamState) (env : Env) (t : Trace)
      → Passes h
      → on_request_headers s h old env t ≡ ((ok [], capture h old), t)
  unfolding on_request_headers ◌>>=◌
  on_request_headers-pass s h old env t p =
      let ne = p.path in
      ground (
        arith,
        text_eq_iff (extract_header_value h (codes ":path")) ohttp_configs_path,
        check_request-pass h old env t p,
      )

  module _ (s : Server) (env : Env) where
    round_of_headers :
        (h : Option HttpHeaders) (l : Loop) (t : Trace)
        → Passes h
        → round s (received (ok (request_headers h))) l env t
          ≡ (continue (record l { st = capture h l.st }), t)
    unfolding round handle_request dispatch_result send_responses ◌>>=◌
    round_of_headers h l t p = rw (on_request_headers-pass s h l.st env t p)

    end-close :
        (step : Step) (t : Trace) → proceed (rounds s (end_input ∷ [])) step env t ≡ (close step, t)
    unfolding proceed rounds round is pure ◌>>=◌
    end-close (continue l) t = refl
    end-close (return l e) t = refl

    module _ (h : Option HttpHeaders) (p : Passes h) where
      last_message :
          (body : Bytes) (t : Trace)
          → (forward_and_respond s (exchange_loop h body).st
                >>= (λ r. dispatch_result r (exchange_loop h body))
                >>= proceed (rounds s (end_input ∷ [])))
              env t
            ≡ (s.relayer
                    (lower_header h (codes ":authority") (codes "host"))
                    body
                    content_type_ohttp_req
                    (codes "post")
                  >>= finish_forward s (exchange_loop h body).st
                  >>= (λ r. dispatch_result r (exchange_loop h body))
                  >>= (λ step. pure (close step)))
                env t
      unfolding ◌>>=◌
      last_message body t =
          ap
            (λ (r : Result Responses × Trace).
              let (step, t') = dispatch_result r.0 (exchange_loop h body) env r.1 in
              proceed (rounds s (end_input ∷ [])) step env t')
            (forwarded_request s h new_loop.st body env t p refl)
          ∙ end-close _ _

      rounds-exchange :
          (cs : List Bytes) (c : Bytes) (m : ℕ) (t : Trace)
          → s.max_request_body_size ≡ pos m
          → m < 2 ^ 63
          → length (joined cs ++ c) ≤ m
          → rounds s
              (chunk_inputs cs ++ final_input c ∷ end_input ∷ [])
              (record new_loop { st = capture h new_loop.st })
              env
              t
            ≡ (s.relayer
                    (lower_header h (codes ":authority") (codes "host"))
                    (joined cs ++ c)
                    content_type_ohttp_req
                    (codes "post")
                  >>= finish_forward s (exchange_loop h (joined cs ++ c)).st
                  >>= (λ r. dispatch_result r (exchange_loop h (joined cs ++ c)))
                  >>= (λ step. pure (close step)))
                env t
      unfolding capture
      rounds-exchange cs c m t limit room small =
          chunking_irrelevant s env m limit room cs c (end_input ∷ [])
            (record new_loop { st = capture h new_loop.st }) t (omega arith) (omega arith)
          ∙ final_step s env m limit room (record new_loop { st = capture h new_loop.st })
              (joined cs ++ c) (end_input ∷ []) t (omega arith)
          ∙ ap
              (λ (l : Loop).
                (forward_and_respond s l.st
                    >>= (λ r. dispatch_result r l)
                    >>= proceed (rounds s (end_input ∷ [])))
                  env t)
              (with_body-fresh h (joined cs ++ c))
          ∙ last_message (joined cs ++ c) t

      -- For headers that pass the checks, and a body that is within a limit below 2^63, cut into
      -- chunks in any way, and then the end of the stream, the loop over the messages refines the
      -- exchange: its outcome and its trace are those of one call of the relayer with the whole
      -- body, of sending the answer and of recording the request.
      pub process-refines :
          (cs : List Bytes) (c : Bytes) (m : ℕ) (t : Trace)
          → s.max_request_body_size ≡ pos m
          → m < 2 ^ 63
          → length (joined cs ++ c) ≤ m
          → process s
              (received (ok (request_headers h)) ∷ chunk_inputs cs
                ++ final_input c ∷ end_input ∷ [])
              env
              t
            ≡ exchange s h (joined cs ++ c) env t
      unfolding process exchange rounds proceed ◌>>=◌
      process-refines cs c m t limit room small =
          let t1 = t ++ measure active_requests (count (pos 1)) [] ∷ [] in
          ap
            (λ (r : Step × Trace).
              let (step, t') =
                proceed (rounds s (chunk_inputs cs ++ final_input c ∷ end_input ∷ [])) r.0 env
                  r.1 in
              conclude (env.now t1) step env t')
            (round_of_headers h new_loop t1 p)
          ∙ ap (λ (r : Step × Trace). conclude (env.now t1) r.0 env r.1)
              (rounds-exchange cs c m t1 limit room small)
