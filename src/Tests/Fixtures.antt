-- ===== src/Tests/Fixtures.antt =====
-- The values that the tests and the examples share: a package unicode that knows the Kelvin sign,
-- and a world whose gateway and services answer as a test wants.
use ohttp_relay.Prelude.{
  ℕ, ◌≤◌, ◌<◌, ◌≡◌, ◌||◌, none, some, [], ◌∷◌, pos, false, arith, String, ◌==◌, if◌then◌else◌,
}
use ohttp_relay.Text.{Text, codes, is_upper, Unicode}
use ohttp_relay.Fault.{unknown, ok}
use ohttp_relay.Http.{HttpResponse, DoResult, responded}
use ohttp_relay.Envoy.{
  StatusCode, status_ok, bad_request, unauthorized, forbidden, not_found, method_not_allowed,
  payload_too_large, too_many_requests, internal_server_error, bad_gateway, service_unavailable,
  gateway_timeout, HeaderValue, HttpHeaders,
}
use ohttp_relay.Exec.{Env}
use ohttp_relay.Handlers.Server.{Server, new_server}
use ohttp_relay.Gateway.{Map, static_map_url_source, http_key_config_source}
use ohttp_relay.Relay.{relay}

abbrev pub kelvin : ℕ
kelvin = 8490

abbrev pub test_lower : ℕ → ℕ
test_lower c = if c == kelvin then b'k' else c

pub test_lower_ascii : (c : ℕ) → 128 ≤ c → test_lower c < 128 → is_upper (test_lower c) ≡ false
test_lower_ascii c h k = ground arith

pub test_lower_idem :
    (c : ℕ) → 128 ≤ c → 128 ≤ test_lower c → test_lower (test_lower c) ≡ test_lower c
test_lower_idem c h k = ground arith

instance abbrev pub test_unicode : Unicode
test_unicode = record {
  lower = test_lower;
  space = λ c. c == 133 || c == 160;
  same_fold = λ c d. c == d;
  lower_ascii = test_lower_ascii;
  lower_idem = test_lower_idem;
}

abbrev pub envoy_number : StatusCode → ℕ
envoy_number status_ok = 200
envoy_number bad_request = 400
envoy_number unauthorized = 401
envoy_number forbidden = 403
envoy_number not_found = 404
envoy_number method_not_allowed = 405
envoy_number payload_too_large = 413
envoy_number too_many_requests = 429
envoy_number internal_server_error = 500
envoy_number bad_gateway = 502
envoy_number service_unavailable = 503
envoy_number gateway_timeout = 504

abbrev pub opaque_response : HttpResponse
opaque_response = record {
  status_code = 200;
  header = [];
  body = codes "opaque-res";
  read_error = none;
}

-- every service is there, and the gateway answers `answer`
abbrev pub world : DoResult → Env
world answer = record {
  now = λ t. 5;
  utc = λ t. record { year = 2024; month = 3; day = 15; hour = 14 };
  new_request_error = λ m url. none;
  client_do = λ t req. answer;
  hget = λ t key field. ok (codes "http://redis");
  pipeline_exec = λ t pipe. none;
  send_error = λ t resp. none;
  grpc_code = λ e. unknown;
  status_number = envoy_number;
}

abbrev pub good_world : Env
good_world = world (responded opaque_response)

abbrev pub mappings : Map Text
mappings = (codes "example.com", codes "http://gw") ∷ []

abbrev pub header : String → String → HeaderValue
header k v = record { key = codes k; value = []; raw_value = codes v }

abbrev pub post_headers : HttpHeaders
post_headers = record {
  headers = some (
      header ":method" "POST"
      ∷ header ":authority" "Example.COM"
      ∷ header "Content-Type" "message/ohttp-req"
      ∷ header "content-length" "3"
      ∷ header "x-client-secret" "me"
      ∷ []);
}

abbrev pub small_server : Server
small_server =
    new_server (relay (static_map_url_source mappings))
      (http_key_config_source (static_map_url_source mappings)) (pos 10) none
