-- ===== src/Envoy.antt =====
-- The messages of Envoy's external processing protocol that the relay reads and makes.
use ohttp_relay.Prelude.{Bool, Option, List}
use ohttp_relay.Text.{Text, Bytes}

-- The values of envoy.type.v3.StatusCode that the source names.
pub data StatusCode : Type 0 where
  status_ok bad_request unauthorized forbidden not_found method_not_allowed : StatusCode
  payload_too_large too_many_requests internal_server_error bad_gateway : StatusCode
  service_unavailable gateway_timeout : StatusCode

pub record HeaderValue : Type 0 where
  pub key : Text
  pub value : Text
  pub raw_value : Text

-- HttpHeaders; a nil HeaderMap is `none`.
pub record HttpHeaders : Type 0 where
  pub headers : Option (List HeaderValue)

-- The oneof of ProcessingRequest. `other` is any case that the source does not list.
pub data ProcessingRequest : Type 0 where
  request_headers : Option HttpHeaders → ProcessingRequest
  request_body : Bytes → Bool → ProcessingRequest
  request_trailers : ProcessingRequest
  response_headers : ProcessingRequest
  response_body : ProcessingRequest
  other : ProcessingRequest

-- ImmediateResponse; `set_headers` is the list of its HeaderMutation.
pub record ImmediateResponse : Type 0 where
  pub status : Option StatusCode
  pub set_headers : List HeaderValue
  pub body : Bytes

-- The relay makes no other case of ProcessingResponse.
pub data ProcessingResponse : Type 0 where
  immediate_response : ImmediateResponse → ProcessingResponse
