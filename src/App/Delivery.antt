-- ===== src/App/Delivery.antt =====
-- A whole request through the started relay: from the messages of Envoy over the mappings and the
-- gateway back to Envoy, with all that the metrics see of it.
pub mod Runs
use ohttp_relay.Prelude.{
  ℕ, inl, inr, ◌+◌, ◌/◌, ◌%◌, ◌^◌, ◌≤◌, ◌<◌, ◌≡◌, ◌≢◌, ap, ◌∙◌, false, Option, none, some, List, [],
  ◌∷◌, ◌++◌, arith, ℤ, pos, negsuc, length, int64, int64_small, int64_congruent, sub_ℕ,
}
use ohttp_relay.Text.{Text, Bytes, codes, Unicode, is_empty}
use ohttp_relay.Fault.{Error, Result, ok}
use ohttp_relay.Http.{HttpRequest, HttpResponse, responded, request_method}
use ohttp_relay.Envoy.{HttpHeaders, request_headers, ProcessingResponse, status_ok}
use ohttp_relay.Exec.{
  Env, Trace, pure, measure, count, duration, http_do, send, active_requests, requests_total,
  request_duration, request_size_bytes, response_size_bytes, gateway_requests_total,
  gateway_request_duration, traffic_bytes_in, traffic_bytes_out, ◌>>=◌,
}
use ohttp_relay.Metrics.{record_request, record_traffic_io, status_category}
use ohttp_relay.Traffic.{no_op_record_traffic}
use ohttp_relay.Gateway.{lookup, get, static_map_url_source}
use ohttp_relay.Relay.{relay, relay_request}
use ohttp_relay.Relay.Laws.{relay-sends}
use ohttp_relay.Config.{Config}
use ohttp_relay.Handlers.Response.{content_type_ohttp_req, content_type_ohttp_res, ok_response}
use ohttp_relay.Handlers.Server.{
  Server, StreamState, Responses, new_server, lower_header, finish_forward, accept_response,
  record_host_traffic, capture,
}
use ohttp_relay.Handlers.Process.{
  received, Loop, Step, continue, returned, note_response, after_send, send_responses,
  dispatch_result, recorded_method, deferred, conclude, process,
}
use ohttp_relay.Handlers.Checks.{Passes}
use ohttp_relay.Handlers.Body.{chunk_inputs, final_input, joined}
use ohttp_relay.Handlers.Exchange.{end_input, close, exchange_loop, exchange, process-refines}
use ohttp_relay.App.{Pings, uses_redis, run_relay_server}
use ohttp_relay.App.Wiring.{server_of, choose_sources-eq, static_sources, run_relay_server-eq}

-- what the world sees of a request up to the answer of the gateway
abbrev pub request_sent : HttpRequest → Trace
request_sent req = measure active_requests (count (pos 1)) [] ∷ http_do req ∷ []

abbrev pub category : ℕ → List (Text × Text)
category status_code = (codes "status_category", status_category status_code) ∷ []

-- what one run records of a request: the method, the bytes that came in and those that went out
pub record Sizes : Type 0 where
  pub method : Text
  pub bytes_in : ℤ
  pub request_size : ℤ
  pub bytes_out : ℤ
  pub response_size : ℤ

module _ (env : Env) (host : Text) (req : HttpRequest) (resp : HttpResponse) (z : Sizes) where
  -- up to the answer to Envoy
  abbrev pub answer_sent : Trace
  answer_sent =
      request_sent req
      ++ (measure gateway_requests_total (count (pos 1)) (category resp.status_code)
          ∷ measure gateway_request_duration
              (duration (
                sub_ℕ (env.now (request_sent req))
                  (env.now (measure active_requests (count (pos 1)) [] ∷ []))))
              (category resp.status_code)
          ∷ measure traffic_bytes_in (count z.bytes_in) ((codes "host", host) ∷ [])
          ∷ measure traffic_bytes_out (count z.bytes_out) ((codes "host", host) ∷ [])
          ∷ send (ok_response content_type_ohttp_res resp.body)
          ∷ [])

  -- the whole trace
  abbrev pub delivery : Trace
  delivery =
      let attrs : List (Text × Text) =
        (codes "method", z.method)
        ∷ (codes "status_category", status_category (env.status_number status_ok))
        ∷ [] in
      answer_sent
      ++ (measure requests_total (count (pos 1)) attrs
          ∷ measure request_duration
              (duration (
                sub_ℕ (env.now answer_sent)
                  (env.now (measure active_requests (count (pos 1)) [] ∷ []))))
              attrs
          ∷ measure request_size_bytes (count z.request_size) attrs
          ∷ measure response_size_bytes (count z.response_size) attrs
          ∷ measure active_requests (count (negsuc 0)) []
          ∷ [])

-- the sizes of a body and its answer
abbrev pub sizes : Bytes → Bytes → Sizes
sizes body answer = record {
  method = codes "post";
  bytes_in = pos (length body);
  request_size = pos (length body);
  bytes_out = int64 (length answer);
  response_size = int64 (length answer);
}

-- the request that is to reach the gateway
abbrev pub expected : Text → Bytes → HttpRequest
expected url body = relay_request url body content_type_ohttp_req (codes "post")

module _ ⦃u : Unicode⦄ (env : Env) (cfg : Config) (h : Option HttpHeaders) (body : Bytes)
    (url : Text) (resp : HttpResponse) where
  -- The host of the request is mapped, and the gateway and Envoy are there.
  pub record Reachable : Type 0 where
    pub mapped :
        lookup cfg.domain_map (lower_header h (codes ":authority") (codes "host")) ≡ some url
    pub url_given : url ≢ []
    pub url_valid : env.new_request_error (codes "post") url ≡ none
    pub answered : (t : Trace) → env.client_do t (expected url body) ≡ responded resp
    pub complete : resp.read_error ≡ none
    pub good : resp.status_code / 100 ≡ 2
    pub accepted : (t : Trace) (r : ProcessingResponse) → env.send_error t r ≡ none
