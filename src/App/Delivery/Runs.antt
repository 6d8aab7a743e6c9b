-- ===== src/App/Delivery/Runs.antt =====
-- The started relay delivers a whole request.
use ohttp_relay.Prelude.{
  ℕ, inl, inr, ◌+◌, ◌%◌, ◌^◌, ◌≤◌, ◌<◌, ◌≡◌, ap, ◌∙◌, false, Option, none, List, [], ◌∷◌, ◌++◌,
  arith, pos, length, int64, int64_small, int64_congruent, sub_ℕ,
}
use ohttp_relay.Text.{Text, Bytes, codes, Unicode, is_empty}
use ohttp_relay.Fault.{Error, Result, ok}
use ohttp_relay.Http.{HttpResponse, request_method}
use ohttp_relay.Envoy.{HttpHeaders, request_headers, ProcessingResponse}
use ohttp_relay.Exec.{
  Env, Trace, pure, measure, count, duration, http_do, send, active_requests,
  gateway_requests_total, gateway_request_duration, traffic_bytes_in, traffic_bytes_out, ◌>>=◌,
}
use ohttp_relay.Metrics.{record_request, record_traffic_io}
use ohttp_relay.Traffic.{no_op_record_traffic}
use ohttp_relay.Gateway.{get, static_map_url_source}
use ohttp_relay.Relay.{relay, relay_request}
use ohttp_relay.Relay.Laws.{relay-sends}
use ohttp_relay.Config.{Config}
use ohttp_relay.Handlers.Response.{content_type_ohttp_req, content_type_ohttp_res, ok_response}
use ohttp_relay.Handlers.Server.{
  Server, StreamState, Responses, new_server, lower_header, finish_forward, accept_response,
  record_host_traffic, capture,
}
use ohttp_relay.Handlers.Process.{
  received, Loop, Step, continue, returned, note_response, after_send, send_responses,
  dispatch_result, recorded_method, deferred, conclude, process,
}
use ohttp_relay.Handlers.Checks.{Passes}
use ohttp_relay.Handlers.Body.{chunk_inputs, final_input, joined}
use ohttp_relay.Handlers.Exchange.{end_input, close, exchange_loop, exchange, process-refines}
use ohttp_relay.App.{Pings, uses_redis, run_relay_server}
use ohttp_relay.App.Wiring.{server_of, choose_sources-eq, static_sources, run_relay_server-eq}
use ohttp_relay.App.Delivery.{category, Sizes, sizes, delivery, expected, Reachable}

-- Without Redis, the started server looks a host up in the mappings alone.
static_server :
    ⦃u : Unicode⦄ (cfg : Config) (pings : Pings) (cert : Option Error) (s : Server)
    → run_relay_server cfg pings cert ≡ ok s
    → uses_redis cfg ≡ false
    → s ≡ server_of cfg (static_sources cfg)
static_server cfg pings cert s started off =
    let (sources, chosen, e) = run_relay_server-eq cfg pings cert started in
    elim (choose_sources-eq cfg pings chosen) [
      | inl same ↦ e ∙ ap (server_of cfg) same
      | inr (tm, on, same) ↦ absurd (cc (on, off))
    ]

module _ ⦃u : Unicode⦄ (env : Env) (cfg : Config) (h : Option HttpHeaders) (body : Bytes)
    (url : Text) (resp : HttpResponse) (reachable : Reachable env cfg h body url resp) where
  relayed :
      (t : Trace)
      → relay
          (static_map_url_source cfg.domain_map)
          (lower_header h (codes ":authority") (codes "host"))
          body
          content_type_ohttp_req
          (codes "post")
          env
          t
        ≡ (
          ok resp,
          t
              ++ (http_do (expected url body)
                  ∷ measure gateway_requests_total (count (pos 1)) (category resp.status_code)
                  ∷ measure gateway_request_duration
                      (duration
                        (sub_ℕ (env.now (t ++ http_do (expected url body) ∷ [])) (env.now t)))
                      (category resp.status_code)
                  ∷ []),
        )
  unfolding static_map_url_source get request_method pure
  relayed t =
      relay-sends env (static_map_url_source cfg.domain_map)
        (lower_header h (codes ":authority") (codes "host")) body content_type_ohttp_req
        (codes "post") t url t (rw (get, reachable.mapped)) reachable.url_given reachable.url_valid
      ∙ rw (reachable.answered t)

  abbrev st : StreamState
  st = (exchange_loop h body).st

  forwarded :
      (t : Trace)
      → finish_forward (server_of cfg (static_sources cfg)) st (ok resp) env t ≡ (
        ok (ok_response content_type_ohttp_res resp.body ∷ []),
        (t
              ++ measure traffic_bytes_in
                  (count (int64 (length body)))
                  ((codes "host", st.host) ∷ [])
                ∷ [])
            ++ measure traffic_bytes_out
                (count (int64 (length resp.body)))
                ((codes "host", st.host) ∷ [])
              ∷ [],
      )
  unfolding finish_forward accept_response record_host_traffic record_traffic_io
      no_op_record_traffic new_server ◌>>=◌
  forwarded t = rw (reachable.complete, reachable.good)

  dispatched :
      (l : Loop) (r : ProcessingResponse) (t : Trace)
      → dispatch_result (ok (r ∷ [])) l env t
        ≡ (continue (note_response env.status_number r l), t ++ send r ∷ [])
  unfolding dispatch_result send_responses after_send ◌>>=◌
  dispatched l r t = rw (reachable.accepted t r)

  abbrev host : Text
  host = lower_header h (codes ":authority") (codes "host")

  -- the sizes as they are computed
  abbrev counted : Sizes
  counted = record {
    method = recorded_method (lower_header h (codes ":method") (codes "method"));
    bytes_in = int64 (length body);
    request_size = int64 (length body % 2 ^ 64);
    bytes_out = int64 (length resp.body);
    response_size = int64 ((0 + length resp.body) % 2 ^ 64);
  }

  exchanged :
      exchange (server_of cfg (static_sources cfg)) h body env []
      ≡ (returned none, delivery env host (expected url body) resp counted)
  unfolding exchange conclude deferred record_request note_response ok_response capture new_server
      ◌>>=◌
  exchanged =
      let s = server_of cfg (static_sources cfg) in
      let l = exchange_loop h body in
      let t0 : Trace = measure active_requests (count (pos 1)) [] ∷ [] in
      let ends = λ (r : Step × Trace). conclude (env.now t0) (close r.0) env r.1 in
      ap
        (λ (r : Result HttpResponse × Trace).
          let (rs, t) = finish_forward s st r.0 env r.1 in ends (dispatch_result rs l env t))
        (relayed t0)
      ∙ ap (λ (r : Result Responses × Trace). ends (dispatch_result r.0 l env r.1)) (forwarded _)
      ∙ ap ends (dispatched l _ _)

  counted-eq : Passes h → length body < 2 ^ 63 → counted ≡ sizes body resp.body
  unfolding recorded_method is_empty
  counted-eq p small =
      let method : recorded_method (lower_header h (codes ":method") (codes "method"))
          ≡ codes "post" =
        rw p.post in
      let body_size : int64 (length body) ≡ pos (length body) = int64_small (length body) small in
      let request_size : int64 (length body % 2 ^ 64) ≡ pos (length body) =
        int64_congruent (length body % 2 ^ 64) (length body) (omega arith) ∙ body_size in
      let response_size : int64 ((0 + length resp.body) % 2 ^ 64) ≡ int64 (length resp.body) =
        int64_congruent ((0 + length resp.body) % 2 ^ 64) (length resp.body) (omega arith) in
      λ i. record {
        method = method i;
        bytes_in = body_size i;
        request_size = request_size i;
        bytes_out = int64 (length resp.body);
        response_size = response_size i;
      }

-- If Redis is not in use, the headers pass the checks, their host is mapped to a URL, the body is
-- within a limit below 2^63, and gateway and Envoy are there, then a run of the started server returns
-- nil, and all it does is `delivery`: the gateway gets the whole body in one request, however it was
-- cut into chunks, Envoy gets the body of the gateway's answer, and the metrics see their sizes.
pub process-delivers :
    ⦃u : Unicode⦄ (env : Env) (cfg : Config) (pings : Pings) (cert : Option Error) (s : Server)
    (h : Option HttpHeaders) (cs : List Bytes) (c : Bytes) (url : Text) (resp : HttpResponse)
    (m : ℕ)
    → run_relay_server cfg pings cert ≡ ok s
    → uses_redis cfg ≡ false
    → cfg.max_request_body_size ≡ pos m
    → m < 2 ^ 63
    → length (joined cs ++ c) ≤ m
    → Passes h
    → Reachable env cfg h (joined cs ++ c) url resp
    → process s
        (received (ok (request_headers h)) ∷ chunk_inputs cs ++ final_input c ∷ end_input ∷ [])
        env
        []
      ≡ (
        returned none,
        delivery env
            (lower_header h (codes ":authority") (codes "host"))
            (relay_request url (joined cs ++ c) content_type_ohttp_req (codes "post"))
            resp
            (sizes (joined cs ++ c) resp.body),
      )
unfolding new_server
process-delivers env cfg pings cert s h cs c url resp m started off limit room small p reachable =
    let body = joined cs ++ c in
    rw (static_server cfg pings cert s started off) (
      process-refines (server_of cfg (static_sources cfg)) env h p cs c m [] limit room small
      ∙ exchanged env cfg h body url resp reachable
      ∙ ap
          (λ (z : Sizes). (
            returned none,
            delivery env (lower_header h (codes ":authority") (codes "host"))
                (relay_request url body content_type_ohttp_req (codes "post")) resp z,
          ))
          (counted-eq env cfg h body url resp reachable p (omega arith)))
