-- ===== src/Handlers/Effects.antt =====
-- What a run of Process does to the world, given what the parts of its server do: every effect stays
-- in a set that is closed under what the handler itself does, and the stream state keeps an
-- invariant.
pub mod Requests
pub mod Rounds
use ohttp_relay.Prelude.{
  ℕ, ◌/◌, ◌≡◌, refl, ◌⊎◌, Bool, true, false, not, ◌||◌, Option, none, some, List, [], ◌∷◌, ◌++◌, ℤ,
  arith, All, ◌==◌, if◌then◌else◌, int64, length,
}
use ohttp_relay.Text.{Text, Bytes, Unicode, is_empty, text_eq, codes, to_lower}
use ohttp_relay.Fault.{Args, Error, Result, ok, err, is, no_gateway, equals, end_of_file, canceled}
use ohttp_relay.Http.{HttpResponse}
use ohttp_relay.Envoy.{
  StatusCode, HttpHeaders, ProcessingRequest, request_headers, request_body, request_trailers,
  response_headers, response_body, other, ProcessingResponse, immediate_response,
}
use ohttp_relay.Exec.{
  traffic_bytes_in, traffic_bytes_out, errors_total, Measure, measure, log_error, send, Effect,
  Trace, Env, pure, ◌>>=◌, ◌>>◌,
}
use ohttp_relay.Exec.Does.{
  Composes, Adds, Adds-pure, Adds-ask, Adds-perform, Adds-emit, Adds-if, Adds-bind, Does, Any,
  Does-pure, Does-ask, Does-perform, Does-emit, Does-if, Does-bind,
}
use ohttp_relay.Metrics.{record_error, record_traffic_io}
use ohttp_relay.Traffic.{TrafficMetrics}
use ohttp_relay.Gateway.{ohttp_configs_path}
use ohttp_relay.Gateway.Effects.{FromKeyConfig}
use ohttp_relay.Relay.Effects.{Answered, FromClient}
use ohttp_relay.Handlers.Response.{
  content_type_ohttp_req, content_type_ohttp_res, content_type_ohttp_keys, error_response,
  immediate_error_response, ok_response, extract_header_value,
}
use ohttp_relay.Handlers.Server.{
  Server, StreamState, Responses, reply, record_host_traffic, accept_response, finish_forward,
  finish_key_config, is_foreign, forward_and_respond, respond_key_config, capture, check_request,
  on_request_headers,
}
use ohttp_relay.Handlers.Process.{
  Input, done, received, Loop, Step, continue, return, note_response, after_send, send_responses,
  dispatch_result, is_too_large, on_request_body, handle_request, round, proceed, rounds,
}

-- A response of the gateway that the relay passes on: complete, and of a status 2xx.
pub record IsGood (env : Env) (resp : HttpResponse) : Type 0 where
  pub answered : Answered env resp
  pub complete : resp.read_error ≡ none
  pub success : (resp.status_code / 100) ≡ 2

-- A content type under which a body is forwarded: that of an encapsulated request, or one that the
-- relay answers with an error and forwards nevertheless.
abbrev pub IsForwardable : ⦃u : Unicode⦄ → Text → Type 0
IsForwardable t = (t ≡ content_type_ohttp_req) ⊎ (is_foreign t ≡ true)

-- What `P` has to hold for the handler to stay inside it, and `R` for its responses, when the stream
-- state satisfies `I` and each chunk of a body satisfies `C`; and what keeps `I`.
pub record ClosedTo (env : Env) (P : Effect → Type 0) (R : ProcessingResponse → Type 0)
    (I : StreamState → Type 0) (C : Bytes → Type 0) (s : Server) : Type 0 where
  pub bytes_in : (m : Measure) (a : List (Text × Text)) → P (measure traffic_bytes_in m a)
  pub bytes_out : (m : Measure) (a : List (Text × Text)) → P (measure traffic_bytes_out m a)
  pub errors : (m : Measure) (a : List (Text × Text)) → P (measure errors_total m a)
  pub logged : (code : ℕ) (f : Text) (a : Args) → P (log_error code f a)
  pub error_sent : (code : ℕ) → R (error_response code)
  pub opaque_sent :
      (resp : HttpResponse) → IsGood env resp → R (ok_response content_type_ohttp_res resp.body)
  pub keys_sent : (b : Bytes) → FromKeyConfig env (ok b) → R (ok_response content_type_ohttp_keys b)
  pub captured : ⦃u : Unicode⦄ (h : Option HttpHeaders) (st : StreamState) → I st → I (capture h st)
  pub configured : (st : StreamState) → I st → I (record st { config_request = true })
  pub cleared : (st : StreamState) → I st → I (record st { body = [] })
  pub appended :
      (st : StreamState) (chunk : Bytes)
      → I st
      → C chunk
      → is_too_large s st chunk ≡ false
      → I (record st { body = st.body ++ chunk })

-- The same, with what the parts of the server do.
pub record PermitsTo ⦃u : Unicode⦄ (env : Env) (P : Effect → Type 0)
    (R : ProcessingResponse → Type 0) (I : StreamState → Type 0) (C : Bytes → Type 0) (s : Server)
    : Type 0 where
  pub closed : ClosedTo env P R I C s
  pub open closed use *
  pub relays :
      (st : StreamState) (content_type : Text)
      → I st
      → IsForwardable content_type
      → Does env P (FromClient env) (s.relayer st.host st.body content_type st.http_method)
  pub configs : (host : Text) → Does env P (FromKeyConfig env) (s.key_config_source host)
  pub records :
      (record_traffic : TrafficMetrics) (host : Text) (bytes_in bytes_out : ℤ)
      → s.traffic_metrics ≡ some record_traffic
      → Does env P Any (record_traffic host bytes_in bytes_out)

-- `P` holds the sending of the responses too.
abbrev pub Closed :
    Env → (Effect → Type 0) → (StreamState → Type 0) → (Bytes → Type 0) → Server → Type 0
Closed env P I C s = ClosedTo env P (λ r. P (send r)) I C s

abbrev pub Permits :
    ⦃u : Unicode⦄
    → Env
    → (Effect → Type 0)
    → (StreamState → Type 0)
    → (Bytes → Type 0)
    → Server
    → Type 0
Permits env P I C s = PermitsTo env P (λ r. P (send r)) I C s

abbrev pub Sendable : (ProcessingResponse → Type 0) → Result Responses → Type 0
Sendable R (ok rs) = All R rs
Sendable R (err e) = Unit

abbrev pub Keeps : (StreamState → Type 0) → Step → Type 0
Keeps I (continue l) = I l.st
Keeps I (return l e) = Unit

-- the chunks of the input
abbrev pub Chunks : (Bytes → Type 0) → Input → Type 0
Chunks C (received (ok (request_body chunk end_of_stream))) = C chunk
Chunks C _ = Unit

-- What a relation `M` of traces that composes has to hold for the handler to stay inside it, and `R` for
-- its responses; the traffic of a response is recorded as a whole.
pub record Within ⦃u : Unicode⦄ (env : Env) (M : Trace → Trace → Type 0)
    (R : ProcessingResponse → Type 0) (I : StreamState → Type 0) (C : Bytes → Type 0) (s : Server)
    : Type 0 where
  pub traffic :
      (host : Text) (bytes_in bytes_out : ℤ)
      → Adds env M Any (
          record_traffic_io host bytes_in bytes_out
          >> record_host_traffic s.traffic_metrics host bytes_in bytes_out)
  pub errors :
      (m : Measure) (a : List (Text × Text)) → (t : Trace) → M t (measure errors_total m a ∷ [])
  pub logged : (code : ℕ) (f : Text) (a : Args) → (t : Trace) → M t (log_error code f a ∷ [])
  pub error_sent : (code : ℕ) → R (error_response code)
  pub opaque_sent :
      (resp : HttpResponse) → IsGood env resp → R (ok_response content_type_ohttp_res resp.body)
  pub keys_sent : (b : Bytes) → FromKeyConfig env (ok b) → R (ok_response content_type_ohttp_keys b)
  pub captured : (h : Option HttpHeaders) (st : StreamState) → I st → I (capture h st)
  pub configured : (st : StreamState) → I st → I (record st { config_request = true })
  pub cleared : (st : StreamState) → I st → I (record st { body = [] })
  pub appended :
      (st : StreamState) (chunk : Bytes)
      → I st
      → C chunk
      → is_too_large s st chunk ≡ false
      → I (record st { body = st.body ++ chunk })
  pub relays :
      (st : StreamState) (content_type : Text)
      → I st
      → IsForwardable content_type
      → Adds env M (FromClient env) (s.relayer st.host st.body content_type st.http_method)
  pub configs : (host : Text) → Adds env M (FromKeyConfig env) (s.key_config_source host)
