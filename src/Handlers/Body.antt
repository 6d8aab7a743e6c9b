-- ===== src/Handlers/Body.antt =====
-- server.go: how the chunks of a body are collected, and what becomes of a complete body.
use ohttp_relay.Prelude.{
  ℕ, ◌+◌, ◌%◌, ◌/◌, ◌^◌, ◌≤◌, ◌<◌, ◌≡◌, ap, sym, ◌∙◌, true, false, Option, none, some, List, [],
  ◌∷◌, ◌++◌, arith, ◌==◌, if◌then◌else◌, pos, length, length-append, append-nil, append_assoc,
}
use ohttp_relay.Text.{Text, Bytes, codes, Unicode}
use ohttp_relay.Fault.{Result, ok, err}
use ohttp_relay.Http.{HttpResponse}
use ohttp_relay.Envoy.{HttpHeaders, request_body, ProcessingResponse}
use ohttp_relay.Exec.{Env, Trace, ◌>>=◌}
use ohttp_relay.Handlers.Response.{
  content_type_ohttp_req, content_type_ohttp_res, error_response, immediate_error_response,
  ok_response, extract_header_value,
}
use ohttp_relay.Handlers.Server.{
  Server, StreamState, accept_response, finish_forward, is_foreign, forward_and_respond, capture,
  lower_header,
}
use ohttp_relay.Handlers.Checks.{Passes, is_foreign_iff}
use ohttp_relay.Handlers.Process.{
  Input, received, Loop, Step, continue, is_too_large, on_request_body, handle_request, round,
  proceed, rounds, dispatch_result,
}

abbrev pub joined : List Bytes → Bytes
joined [] = []
joined (c ∷ cs) = c ++ joined cs

-- the messages of chunks that are not the last
abbrev pub chunk_inputs : List Bytes → List Input
chunk_inputs [] = []
chunk_inputs (c ∷ cs) = received (ok (request_body c false)) ∷ chunk_inputs cs

-- a chunk that ends the body
abbrev pub final_input : Bytes → Input
final_input c = received (ok (request_body c true))

-- the loop with more of the body
abbrev pub with_body : Loop → Bytes → Loop
with_body l b = record l {
  st = record l.st { body = l.st.body ++ b };
  req_size = (l.req_size + length b) % 2 ^ 64;
}

-- Loops that differ in the body and the request size alone.
loop_path :
    (l : Loop) {a b : Bytes} {n k : ℕ}
    → a ≡ b
    → n ≡ k
    → ◌≡◌ {A = Loop}
        (record l { st = record l.st { body = a }; req_size = n })
        (record l { st = record l.st { body = b }; req_size = k })
loop_path l p q = λ i. record l { st = record l.st { body = p i }; req_size = q i }

with_body-nil : (l : Loop) → l.req_size < 2 ^ 64 → with_body l [] ≡ l
with_body-nil l h = loop_path l (append-nil l.st.body) (omega arith)

with_body-append : (l : Loop) (a b : Bytes) → with_body (with_body l a) b ≡ with_body l (a ++ b)
with_body-append l a b = loop_path l (append_assoc l.st.body a b) (omega (arith, length-append a b))

-- A chunk within the limit is not too large.
fits :
    (s : Server) (st : StreamState) (c : Bytes) (m : ℕ)
    → s.max_request_body_size ≡ pos m
    → m < 2 ^ 63
    → length st.body + length c ≤ m
    → is_too_large s st c ≡ false
unfolding is_too_large
fits s st c m limit room small = rw limit (ground arith)

module _ ⦃u : Unicode⦄ (s : Server) (env : Env) (m : ℕ) (limit : s.max_request_body_size ≡ pos m)
    (room : m < 2 ^ 63) where
  round_of_chunk :
      (l : Loop) (c : Bytes) (t : Trace)
      → length l.st.body + length c ≤ m
      → round s (received (ok (request_body c false))) l env t ≡ (continue (with_body l c), t)
  unfolding round handle_request on_request_body ◌>>=◌
  round_of_chunk l c t small = rw (fits s l.st c m limit room small)

  collect_step :
      (l : Loop) (c : Bytes) (inputs : List Input) (t : Trace)
      → length l.st.body + length c ≤ m
      → rounds s (received (ok (request_body c false)) ∷ inputs) l env t
        ≡ rounds s inputs (with_body l c) env t
  unfolding rounds proceed ◌>>=◌
  collect_step l c inputs t small =
      ap (λ (r : Step × Trace). proceed (rounds s inputs) r.0 env r.1) (round_of_chunk l c t small)

  -- As long as they fit, the chunks of a body are only collected: nothing is done, and the body and
  -- the request size grow by all of them.
  pub rounds_of_chunks :
      (cs : List Bytes) (inputs : List Input) (l : Loop) (t : Trace)
      → l.req_size < 2 ^ 64
      → length l.st.body + length (joined cs) ≤ m
      → rounds s (chunk_inputs cs ++ inputs) l env t
        ≡ rounds s inputs (with_body l (joined cs)) env t
  rounds_of_chunks [] inputs l t h small = rw (with_body-nil l h)
  rounds_of_chunks (c ∷ cs) inputs l t h small =
      collect_step l c (chunk_inputs cs ++ inputs) t (omega (arith, length-append c (joined cs)))
      ∙ rounds_of_chunks cs inputs (with_body l c) t (omega arith)
          (omega (arith, length-append c (joined cs), length-append l.st.body c))
      ∙ ap (λ (l' : Loop). rounds s inputs l' env t) (with_body-append l c (joined cs))

  round_of_final :
      (l : Loop) (c : Bytes) (t : Trace)
      → length l.st.body + length c ≤ m
      → round s (final_input c) l env t
        ≡ (forward_and_respond s (with_body l c).st >>= λ r. dispatch_result r (with_body l c)) env
            t
  unfolding round handle_request on_request_body
  round_of_final l c t small = rw (fits s l.st c m limit room small)

  pub final_step :
      (l : Loop) (c : Bytes) (inputs : List Input) (t : Trace)
      → length l.st.body + length c ≤ m
      → rounds s (final_input c ∷ inputs) l env t
        ≡ (forward_and_respond s (with_body l c).st
              >>= (λ r. dispatch_result r (with_body l c))
              >>= proceed (rounds s inputs))
            env t
  unfolding rounds proceed ◌>>=◌
  final_step l c inputs t small =
      ap (λ (r : Step × Trace). proceed (rounds s inputs) r.0 env r.1) (round_of_final l c t small)

  -- With a limit below 2^63, a request size below 2^64 and a body that is within the limit to its
  -- end, it makes no difference how the rest of the body is cut into chunks: the run is the one in
  -- which it comes in a single last message.
  pub chunking_irrelevant :
      (cs : List Bytes) (c : Bytes) (inputs : List Input) (l : Loop) (t : Trace)
      → l.req_size < 2 ^ 64
      → length l.st.body + length (joined cs ++ c) ≤ m
      → rounds s (chunk_inputs cs ++ final_input c ∷ inputs) l env t
        ≡ rounds s (final_input (joined cs ++ c) ∷ inputs) l env t
  chunking_irrelevant cs c inputs l t h small =
      rounds_of_chunks cs (final_input c ∷ inputs) l t h
        (omega (arith, length-append (joined cs) c))
      ∙ final_step (with_body l (joined cs)) c inputs t
          (omega (arith, length-append (joined cs) c, length-append l.st.body (joined cs)))
      ∙ ap
          (λ (l' : Loop).
            (forward_and_respond s l'.st
                >>= (λ r. dispatch_result r l')
                >>= proceed (rounds s inputs))
              env t)
          (with_body-append l (joined cs) c)
      ∙ sym (final_step l (joined cs ++ c) inputs t small)

-- What Envoy is answered for an answer of the relayer.
abbrev pub gateway_verdict : Result HttpResponse → ProcessingResponse
gateway_verdict (err e) = error_response 502
gateway_verdict (ok resp) = elim resp.read_error [
  | some e ↦ error_response 502
  | none ↦
      if resp.status_code / 100 == 2
      then ok_response content_type_ohttp_res resp.body
      else error_response 502
]

finish_forward-eq :
    (s : Server) (st : StreamState) (r : Result HttpResponse) (env : Env) (t : Trace)
    → (finish_forward s st r env t).0 ≡ ok (gateway_verdict r ∷ [])
unfolding finish_forward accept_response immediate_error_response ◌>>=◌
finish_forward-eq s st r env t = ground arith

-- The content type under which a body is forwarded.
abbrev pub forwarded_type : ⦃u : Unicode⦄ → StreamState → Text
forwarded_type st =
    if is_foreign st.req_content_type then st.req_content_type else content_type_ohttp_req

-- On a stream with no key configuration request, a complete body gets exactly one response, and
-- only the answer of the relayer decides which: that of the gateway's complete body for a status
-- 2xx, or the error response of 502 in every other case. Nothing else shows, be it the kind of an
-- error or a failure of the traffic metrics.
pub forward_verdict :
    ⦃u : Unicode⦄ (s : Server) (st : StreamState) (env : Env) (t : Trace)
    → st.config_request ≡ false
    → (forward_and_respond s st env t).0
      ≡ ok (
          gateway_verdict (s.relayer st.host st.body (forwarded_type st) st.http_method env t).0
          ∷ [])
unfolding forward_and_respond ◌>>=◌
forward_verdict s st env t h = simp h (finish_forward-eq s st _ env _)

-- On a stream with no earlier key configuration request, after headers that pass the checks, a
-- complete body is forwarded: the relayer gets the body with the lower-case
-- host, the method "post" and the content type of an OHTTP request, and its answer is dispatched.
pub forwarded_request :
    ⦃u : Unicode⦄ (s : Server) (h : Option HttpHeaders) (old : StreamState) (body : Bytes)
    (env : Env) (t : Trace)
    → Passes h
    → old.config_request ≡ false
    → let st : StreamState = record (capture h old) { body = body } in
      forward_and_respond s st env t
      ≡ (s.relayer
              (lower_header h (codes ":authority") (codes "host"))
              body
              content_type_ohttp_req
              (codes "post")
            >>= finish_forward s st)
          env t
unfolding forward_and_respond capture
forwarded_request s h old body env t p fresh = rw (
  fresh,
  (is_foreign_iff (extract_header_value h (codes "content-type"))).1 p.content_type,
  p.post,
)
