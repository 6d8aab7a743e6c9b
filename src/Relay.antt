-- ===== src/Relay.antt =====
-- pkg/ohttp-relay/relay/relayer.go: the forwarding of an opaque body to the gateway of a host.
pub mod Effects
pub mod Laws
pub mod Outcomes
use ohttp_relay.Prelude.{ℕ, none, some, [], sub_ℕ, if◌then◌else◌}
use ohttp_relay.Text.{Text, Bytes, codes, is_empty}
use ohttp_relay.Fault.{sentinel, no_gateway, message, end, text, wrapped, Result, ok, err}
use ohttp_relay.Http.{
  Header, HttpRequest, HttpResponse, DoResult, responded, failed, set_header, request_method,
}
use ohttp_relay.Exec.{http_do, Exec, pure, ask, perform, ◌>>=◌, ◌>>◌}
use ohttp_relay.Metrics.{record_gateway_request}
use ohttp_relay.Gateway.{UrlSource}

-- Relayer.Relay: the host, the body, the content type and the method
abbrev pub Relayer : Type 0
Relayer = Text → Bytes → Text → Text → Exec (Result HttpResponse)

-- The headers of the new request: nothing of the client's, and no default User-Agent.
unfoldable pub relay_header : Text → Header
unfolding is_empty set_header
relay_header content_type =
    let clean : Header =
      if is_empty content_type then [] else set_header (codes "Content-Type") content_type [] in
    set_header (codes "User-Agent") [] clean

unfoldable pub relay_request : Text → Bytes → Text → Text → HttpRequest
unfolding relay_header request_method
relay_request url body content_type method = record {
  method = request_method method;
  url = url;
  header = relay_header content_type;
  body = body;
}

-- the status of the response, or 0 with none
abbrev pub seen_status : DoResult → ℕ
seen_status (responded r) = r.status_code
seen_status (failed e none) = 0
seen_status (failed e (some r)) = r.status_code

abbrev pub relay_answer : DoResult → Result HttpResponse
relay_answer (responded r) = ok r
relay_answer (failed e r) = err (message (codes "relay request failed: %w") (wrapped e end))

-- client.Do and the metric of its answer
unfoldable pub send_request : ℕ → HttpRequest → Exec (Result HttpResponse)
send_request start req = do
  answer ← perform (http_do req) (λ env t. env.client_do t req)
  stop ← ask (λ env t. env.now t)
  record_gateway_request (seen_status answer) (sub_ℕ stop start)
  pure (relay_answer answer)

-- from the answer of the gateway source on
unfoldable pub relay_to : ℕ → Result Text → Relayer
unfolding is_empty send_request
relay_to start (err e) host body content_type method =
    pure (err (message (codes "get gateway mapping for host %q: %w") (text host (wrapped e end))))
relay_to start (ok gw_url) host body content_type method =
    if is_empty gw_url
    then pure (err (message (codes "host  %q: %w") (text host (wrapped (sentinel no_gateway) end))))
    else do
      invalid ← ask (λ env t. env.new_request_error (request_method method) gw_url)
      elim invalid [
        | some e ↦ pure (err (message (codes "build relay request: %w") (wrapped e end)))
        | none ↦ send_request start (relay_request gw_url body content_type method)
      ]

-- HTTPRelayer.Relay
unfoldable pub relay : UrlSource → Relayer
unfolding relay_to
relay gateway_source host body content_type method = do
  start ← ask (λ env t. env.now t)
  r ← gateway_source host
  relay_to start r host body content_type method
