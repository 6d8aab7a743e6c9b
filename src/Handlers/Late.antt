-- ===== src/Handlers/Late.antt =====
-- server.go: what becomes of the messages after a chunk that was too large.
use ohttp_relay.Prelude.{
  ℕ, ◌+◌, ◌^◌, ◌≤◌, ◌<◌, ◌≡◌, refl, ap, ◌∙◌, true, false, none, List, [], ◌∷◌, ◌++◌, arith, pos,
  length,
}
use ohttp_relay.Text.{Bytes, codes, Unicode}
use ohttp_relay.Fault.{Result, ok, end}
use ohttp_relay.Envoy.{request_body, ProcessingResponse}
use ohttp_relay.Exec.{Env, Trace, Exec, log_error, send, ◌>>=◌}
use ohttp_relay.Handlers.Response.{error_response, immediate_error_response}
use ohttp_relay.Handlers.Server.{
  Server, StreamState, Responses, finish_forward, forward_and_respond,
}
use ohttp_relay.Handlers.Process.{
  Input, received, Loop, Step, continue, add64, is_too_large, note_response, after_send,
  send_responses, dispatch_result, on_request_body, handle_request, round, proceed, rounds,
}
use ohttp_relay.Handlers.Body.{final_input, final_step, with_body, forwarded_type}

-- A chunk over the limit is too large.
too_large :
    (s : Server) (st : StreamState) (c : Bytes) (m : ℕ)
    → s.max_request_body_size ≡ pos m
    → m < length st.body + length c
    → length st.body + length c < 2 ^ 63
    → is_too_large s st c ≡ true
unfolding is_too_large
too_large s st c m limit big small = rw limit (ground arith)

forward_and_respond-eq :
    ⦃u : Unicode⦄ (s : Server) (st : StreamState)
    → st.config_request ≡ false
    → forward_and_respond s st ≡ (
        s.relayer st.host st.body (forwarded_type st) st.http_method
        >>= (λ r. finish_forward s st r))
unfolding forward_and_respond
forward_and_respond-eq s st h = rw h refl

-- the effects of refusing the chunk
abbrev pub refused : Trace → Trace
refused t =
    (t ++ log_error 413 (codes "request body too large") end ∷ []) ++ send (error_response 413) ∷ []

module _ ⦃u : Unicode⦄ (s : Server) (env : Env) (m : ℕ) (limit : s.max_request_body_size ≡ pos m)
    (room : m < 2 ^ 63)
    (accepts : (t : Trace) (resp : ProcessingResponse) → env.send_error t resp ≡ none) where
  -- the loop after a chunk that is refused
  abbrev emptied : Loop → Bytes → Loop
  emptied l c =
      note_response env.status_number (error_response 413)
        (record l { st = record l.st { body = [] }; req_size = add64 l.req_size (length c) })

  round-refused :
      (l : Loop) (c : Bytes) (t : Trace)
      → m < length l.st.body + length c
      → length l.st.body + length c < 2 ^ 63
      → round s (received (ok (request_body c false))) l env t ≡ (continue (emptied l c), refused t)
  unfolding round handle_request on_request_body send_responses after_send note_response
      immediate_error_response error_response ◌>>=◌
  round-refused l c t big small = rw (too_large s l.st c m limit big small, accepts _ _) refl

  -- With a limit m below 2^63, on a stream with no key configuration request, and one that takes every
  -- response, a chunk that takes the body over m is refused, but the loop goes on with an empty body: a
  -- last chunk within m that follows is given to the relayer as if it were the whole body, for the host
  -- and under the method of the refused request, and the verdict on its answer is dispatched.
  pub tail_forwarded :
      (l : Loop) (c tail : Bytes) (inputs : List Input) (t : Trace)
      → l.st.config_request ≡ false
      → m < length l.st.body + length c
      → length l.st.body + length c < 2 ^ 63
      → length tail ≤ m
      → (l' : Loop) × (l'.st ≡ record l.st { body = tail })
        × (rounds s (received (ok (request_body c false)) ∷ final_input tail ∷ inputs) l env t
            ≡ (s.relayer l.st.host tail (forwarded_type l.st) l.st.http_method
                  >>= (λ r. finish_forward s l'.st r)
                  >>= (λ r. dispatch_result r l')
                  >>= proceed (rounds s inputs))
                env
                (refused t))
  unfolding rounds proceed note_response error_response ◌>>=◌
  tail_forwarded l c tail inputs t plain big small fitting = (
    with_body (emptied l c) tail,
    refl,
    ap (λ (r : Step × Trace). proceed (rounds s (final_input tail ∷ inputs)) r.0 env r.1)
          (round-refused l c t big small)
        ∙ final_step s env m limit room (emptied l c) tail inputs (refused t) (omega arith)
        ∙ ap
            (λ (forwarding : Exec (Result Responses)).
              (forwarding
                  >>= (λ r. dispatch_result r (with_body (emptied l c) tail))
                  >>= proceed (rounds s inputs))
                env (refused t))
            (forward_and_respond-eq s (with_body (emptied l c) tail).st plain),
  )
