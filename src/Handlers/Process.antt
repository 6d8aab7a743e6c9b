-- ===== src/Handlers/Process.antt =====
-- server.go: `Process`, the loop over the messages of one stream. Its input is the list of what its
-- rounds meet; after the last the loop waits in Recv. The int64 sums are kept as 64-bit patterns.
use ohttp_relay.Prelude.{
  ℕ, ◌+◌, ◌%◌, ◌^◌, Bool, false, ◌||◌, Option, none, some, List, [], ◌∷◌, ◌++◌, pos, negsuc, ltb_ℤ,
  int64, sub_ℕ, length, if◌then◌else◌,
}
use ohttp_relay.Text.{Text, Bytes, codes, is_empty, Unicode}
use ohttp_relay.Fault.{
  Error, status, unknown, end, shown, Result, ok, err, canceled, end_of_file, is, equals,
}
use ohttp_relay.Envoy.{
  ImmediateResponse, HttpHeaders, ProcessingRequest, request_headers, request_body,
  request_trailers, response_headers, response_body, other, ProcessingResponse, immediate_response,
}
use ohttp_relay.Exec.{
  active_requests, count, measure, send, Exec, pure, ask, perform, emit, ◌>>=◌, ◌>>◌,
}
use ohttp_relay.Metrics.{record_request, record_error, status_category}
use ohttp_relay.Handlers.Response.{http_request_entity_too_large, immediate_error_response}
use ohttp_relay.Handlers.Server.{
  Server, StreamState, Responses, forward_and_respond, on_request_headers,
}

-- What a round meets: the context is done, or Recv returns.
pub data Input : Type 0 where
  done : Error → Input
  received : Result ProcessingRequest → Input

-- The variables of the loop that the deferred function reads too.
pub record Loop : Type 0 where
  pub st : StreamState
  pub req_size : ℕ
  pub resp_size : ℕ
  pub status_code : ℕ

-- The loop goes on, or Process returns its error or nil.
pub data Step : Type 0 where
  continue : Loop → Step
  return : Loop → Option Error → Step

-- what the caller of Process sees: it waits, or has returned an error or nil
pub data Outcome : Type 0 where
  waiting : Loop → Outcome
  returned : Option Error → Outcome

abbrev pub new_loop : Loop
new_loop = record {
  st = record {
    host = [];
    config_request = false;
    req_content_type = [];
    http_method = [];
    body = [];
  };
  req_size = 0;
  resp_size = 0;
  status_code = 200;
}

-- an int64 sum, as a pattern
abbrev pub add64 : ℕ → ℕ → ℕ
add64 a b = (a + b) % 2 ^ 64

-- the status and the size of a response, before it is sent
unfoldable pub note_response : (ohttp_relay.Envoy.StatusCode → ℕ) → ProcessingResponse → Loop → Loop
note_response number (immediate_response ir) l = record l {
  status_code = elim ir.status [ none ↦ l.status_code | some c ↦ number c ];
  resp_size = add64 l.resp_size (length ir.body);
}

-- after a call of Send: its error ends the stream
unfoldable pub after_send : Loop → Exec Step → Option Error → Exec Step
after_send l rest none = rest
after_send l rest (some e) = do
  record_error (codes "send_error")
  pure (
      return l
        (some (status unknown (codes "failed to send response back to Envoy: %v") (shown e end))))

-- `SendResponses`
unfoldable pub send_responses : Responses → Loop → Exec Step
send_responses [] l = pure (continue l)
send_responses (resp ∷ responses) l = do
  l' ← ask (λ env t. note_response env.status_number resp l)
  failure ← perform (send resp) (λ env t. env.send_error t resp)
  after_send l' (send_responses responses l') failure

-- after the switch: an error ends the stream, responses are sent
unfoldable pub dispatch_result : Result Responses → Loop → Exec Step
dispatch_result (ok responses) l = send_responses responses l
dispatch_result (err e) l = do
  record_error (codes "process_error")
  code ← ask (λ env t. env.grpc_code e)
  pure (return l (some (status code (codes "failed to handle request: %v") (shown e end))))

-- whether the chunk takes the body over the limit
unfoldable pub is_too_large : Server → StreamState → Bytes → Bool
is_too_large s st chunk = ltb_ℤ s.max_request_body_size (int64 (length st.body + length chunk))

abbrev set_body : Loop → Bytes → Loop
set_body l body = record l { st = record l.st { body = body } }

-- the rest of the rounds, unless the last one has returned
unfoldable pub proceed : (Loop → Exec Step) → Step → Exec Step
proceed rest (continue l) = rest l
proceed rest (return l e) = pure (return l e)

module _ ⦃u : Unicode⦄ where
  -- the case of the request body
  unfoldable pub on_request_body : Server → Bytes → Bool → Loop → Exec Step
  on_request_body s chunk end_of_stream old =
      let l : Loop = record old { req_size = add64 old.req_size (length chunk) } in
      if is_too_large s l.st chunk
      then (do
        responses ←
            immediate_error_response http_request_entity_too_large (codes "request body too large")
              end
        send_responses responses (set_body l []))
      else let l' : Loop = set_body l (l.st.body ++ chunk) in
        if end_of_stream
        then (do r ← forward_and_respond s l'.st; dispatch_result r l')
        else pure (continue l')

  -- the switch on the type of the message
  unfoldable pub handle_request : Server → ProcessingRequest → Loop → Exec Step
  handle_request s (request_headers h) l = do
    (r, st) ← on_request_headers s h l.st
    dispatch_result r (record l { st = st })
  handle_request s (request_body chunk end_of_stream) l = on_request_body s chunk end_of_stream l
  handle_request s request_trailers l = pure (continue l)
  handle_request s response_headers l = pure (continue l)
  handle_request s response_body l = pure (continue l)
  handle_request s other l = do
    record_error (codes "unknown_request_type")
    pure (return l (some (status unknown (codes "unknown request type") end)))

  -- one round of the loop
  unfoldable pub round : Server → Input → Loop → Exec Step
  round s (done e) l = pure (return l (some e))
  round s (received (err e)) l =
      if equals end_of_file e || is canceled e then pure (return l none) else do
        record_error (codes "recv_error")
        pure (
            return l
              (some (status unknown (codes "cannot receive stream request: %v") (shown e end))))
  round s (received (ok req)) l = handle_request s req l

  unfoldable pub rounds : Server → List Input → Loop → Exec Step
  rounds s [] l = pure (continue l)
  rounds s (i ∷ inputs) l = do step ← round s i l; proceed (rounds s inputs) step

  -- the method under which the request is recorded
  unfoldable pub recorded_method : Text → Text
  recorded_method method = if is_empty method then codes "UNKNOWN" else method

  -- the deferred functions, the last one deferred first
  unfoldable pub deferred : ℕ → Loop → Exec (Unit {0})
  deferred start l = do
    stop ← ask (λ env t. env.now t)
    record_request (recorded_method l.st.http_method) (status_category l.status_code)
        (sub_ℕ stop start) (int64 l.req_size) (int64 l.resp_size)
    emit (measure active_requests (count (negsuc 0)) [])

  -- after the loop
  unfoldable pub conclude : ℕ → Step → Exec Outcome
  conclude start (continue l) = pure (waiting l)
  conclude start (return l e) = do deferred start l; pure (returned e)

  -- `Process`
  unfoldable pub process : Server → List Input → Exec Outcome
  process s inputs = do
    emit (measure active_requests (count (pos 1)) [])
    start ← ask (λ env t. env.now t)
    step ← rounds s inputs new_loop
    conclude start step
