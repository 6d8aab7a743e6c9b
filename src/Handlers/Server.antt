-- ===== src/Handlers/Server.antt =====
-- server.go: `Server`, `streamState`, and the handling of the headers and of a complete body.
use ohttp_relay.Prelude.{
  ℕ, ◌/◌, Bool, true, false, not, ◌&&◌, ◌||◌, Option, none, some, List, [], ◌∷◌, ℤ, int64, length,
  ◌==◌, if◌then◌else◌,
}
use ohttp_relay.Text.{Text, Bytes, codes, text_eq, is_empty, Unicode, to_lower, equal_fold}
use ohttp_relay.Fault.{Args, message, end, text, number, shown, Result, ok, err, no_gateway, is}
use ohttp_relay.Http.{HttpResponse}
use ohttp_relay.Envoy.{HttpHeaders, ProcessingResponse}
use ohttp_relay.Exec.{Exec, pure, ◌>>=◌, ◌>>◌}
use ohttp_relay.Metrics.{record_traffic_io}
use ohttp_relay.Traffic.{TrafficMetrics}
use ohttp_relay.Gateway.{KeyConfigSource, ohttp_configs_path}
use ohttp_relay.Relay.{Relayer}
use ohttp_relay.Handlers.Response.{
  content_type_ohttp_req, content_type_ohttp_res, content_type_ohttp_keys, http_bad_request,
  http_method_not_allowed, http_length_required, http_unsupported_media_type,
  http_internal_server_error, http_bad_gateway, immediate_error_response, ok_response,
  extract_header_value,
}

-- `trafficMetrics` may be nil. `streaming` is set and never read.
pub record Server : Type 0 where
  pub streaming : Bool
  pub relayer : Relayer
  pub key_config_source : KeyConfigSource
  pub max_request_body_size : ℤ
  pub traffic_metrics : Option TrafficMetrics

-- NewServer
unfoldable pub new_server : Relayer → KeyConfigSource → ℤ → Option TrafficMetrics → Server
new_server relayer ks max_request_body_size traffic_metrics = record {
  streaming = false;
  relayer = relayer;
  key_config_source = ks;
  max_request_body_size = max_request_body_size;
  traffic_metrics = traffic_metrics;
}

pub record StreamState : Type 0 where
  pub host : Text
  pub config_request : Bool
  pub req_content_type : Text
  pub http_method : Text
  pub body : Bytes

abbrev pub Responses : Type 0
Responses = List ProcessingResponse

abbrev pub reply : ℕ → Text → Args → Exec (Result Responses)
reply code format args = do
  responses ← immediate_error_response code format args
  pure (ok responses)

-- RecordTraffic of the server's metrics, if there are any; its error is only logged
unfoldable pub record_host_traffic : Option TrafficMetrics → Text → ℤ → ℤ → Exec (Unit {0})
record_host_traffic none host bytes_in bytes_out = pure tt
record_host_traffic (some record_traffic) host bytes_in bytes_out = do
  e ← record_traffic host bytes_in bytes_out
  pure tt

-- `forwardAndRespond` from a response with a complete body and a good status on
unfoldable pub accept_response : Server → StreamState → Bytes → Exec (Result Responses)
accept_response s st resp_bytes = do
  let bytes_in = int64 (length st.body)
  let bytes_out = int64 (length resp_bytes)
  record_traffic_io st.host bytes_in bytes_out
  record_host_traffic s.traffic_metrics st.host bytes_in bytes_out
  pure (ok (ok_response content_type_ohttp_res resp_bytes ∷ []))

-- `forwardAndRespond` from the answer of the relayer on
unfoldable pub finish_forward : Server → StreamState → Result HttpResponse → Exec (Result Responses)
finish_forward s st (err e) =
    if is no_gateway e
    then reply http_bad_gateway (codes "%s") (shown e end)
    else reply http_bad_gateway (codes "relay request failed: %v") (shown e end)
finish_forward s st (ok resp) = elim resp.read_error [
  | some e ↦ reply http_bad_gateway (codes "failed reading relay response: %v") (shown e end)
  | none ↦
      if not (resp.status_code / 100 == 2)
      then reply http_bad_gateway (codes "gateway status %d") (number resp.status_code end)
      else accept_response s st resp.body
]

-- `respondKeyConfig` from the answer of the key configuration source on
unfoldable pub finish_key_config : Result Bytes → Exec (Result Responses)
finish_key_config (err e) =
    reply http_internal_server_error (codes "failed to get key config: %v") (shown e end)
finish_key_config (ok resp_bytes) = pure (ok (ok_response content_type_ohttp_keys resp_bytes ∷ []))

module _ ⦃u : Unicode⦄ where
  -- a content type that is there and is not the one of an OHTTP request
  unfoldable pub is_foreign : Text → Bool
  is_foreign content_type =
      not (is_empty content_type) && not (equal_fold content_type content_type_ohttp_req)

  unfoldable pub forward_and_respond : Server → StreamState → Exec (Result Responses)
  forward_and_respond s st =
      if st.config_request
      then pure (err (message (codes "config request not allowed") end))
      else do
        let content_type =
            if is_foreign st.req_content_type then st.req_content_type else content_type_ohttp_req
        r ← s.relayer st.host st.body content_type st.http_method
        finish_forward s st r

  unfoldable pub respond_key_config :
      Server → Option HttpHeaders → StreamState → Exec (Result Responses)
  respond_key_config s headers st =
      if not (text_eq st.http_method (codes "get"))
      then reply http_method_not_allowed (codes "GET method required for OHTTP configs but was %q")
          (text st.http_method end)
      else if not (
          text_eq (to_lower (extract_header_value headers (codes "accept")))
            content_type_ohttp_keys)
      then reply http_bad_request
          (codes "Accept header must be application/ohttp-keys for OHTTP configs") end
      else do r ← s.key_config_source st.host; finish_key_config r

  -- a header in lower case, under either of two keys
  abbrev pub lower_header : Option HttpHeaders → Text → Text → Text
  lower_header h key other_key =
      let v = to_lower (extract_header_value h key) in
      if is_empty v then to_lower (extract_header_value h other_key) else v

  -- what the request headers set in the state
  unfoldable pub capture : Option HttpHeaders → StreamState → StreamState
  capture h st = record st {
    http_method = lower_header h (codes ":method") (codes "method");
    host = lower_header h (codes ":authority") (codes "host");
    req_content_type = extract_header_value h (codes "content-type");
  }

  -- the checks on a request that is not for the key configuration; [] lets it through
  unfoldable pub check_request : Option HttpHeaders → StreamState → Exec (Result Responses)
  check_request h st =
      if not (text_eq st.http_method (codes "post"))
      then reply http_method_not_allowed (codes "POST method required for OHTTP configs but was %q")
          (text st.http_method end)
      else if is_foreign st.req_content_type
      then reply http_unsupported_media_type (codes "unsupported content-type %q")
          (text st.req_content_type end)
      else let content_len = extract_header_value h (codes "content-length") in
        if is_empty content_len || text_eq content_len (codes "0")
        then reply http_length_required
            (codes "content-length header must be present and greater than 0") end
        else pure (ok [])

  -- the case of the request headers
  unfoldable pub on_request_headers :
      Server → Option HttpHeaders → StreamState → Exec (Result Responses × StreamState)
  on_request_headers s h old = do
    let st = capture h old
    if text_eq (extract_header_value h (codes ":path")) ohttp_configs_path
        then (do r ← respond_key_config s h st; pure (r, record st { config_request = true }))
        else do r ← check_request h st; pure (r, st)
