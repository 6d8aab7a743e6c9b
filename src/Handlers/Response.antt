-- ===== src/Handlers/Response.antt =====
-- server.go: the constants, `extractHeaderValue` and `immediateErrorResponse`.
use ohttp_relay.Prelude.{ℕ, Option, none, some, List, [], ◌∷◌, ◌==◌, if◌then◌else◌}
use ohttp_relay.Text.{Text, Bytes, codes, text_eq, is_empty, Unicode, to_lower}
use ohttp_relay.Fault.{Args}
use ohttp_relay.Envoy.{
  StatusCode, status_ok, bad_request, unauthorized, forbidden, not_found, method_not_allowed,
  payload_too_large, too_many_requests, internal_server_error, bad_gateway, service_unavailable,
  gateway_timeout, HeaderValue, HttpHeaders, ProcessingResponse, immediate_response,
}
use ohttp_relay.Exec.{log_error, Exec, pure, emit, ◌>>◌}

abbrev pub content_type_ohttp_req : Text
content_type_ohttp_req = codes "message/ohttp-req"

abbrev pub content_type_ohttp_res : Text
content_type_ohttp_res = codes "message/ohttp-res"

abbrev pub content_type_ohttp_keys : Text
content_type_ohttp_keys = codes "application/ohttp-keys"

-- The status codes of net/http that the source names.
abbrev pub http_bad_request : ℕ
http_bad_request = 400

abbrev pub http_method_not_allowed : ℕ
http_method_not_allowed = 405

abbrev pub http_length_required : ℕ
http_length_required = 411

abbrev pub http_request_entity_too_large : ℕ
http_request_entity_too_large = 413

abbrev pub http_unsupported_media_type : ℕ
http_unsupported_media_type = 415

abbrev pub http_internal_server_error : ℕ
http_internal_server_error = 500

abbrev pub http_bad_gateway : ℕ
http_bad_gateway = 502

-- the table of http.StatusText
abbrev status_texts : List (ℕ × Text)
status_texts =
    (100, codes "Continue")
    ∷ (101, codes "Switching Protocols")
    ∷ (102, codes "Processing")
    ∷ (103, codes "Early Hints")
    ∷ (200, codes "OK")
    ∷ (201, codes "Created")
    ∷ (202, codes "Accepted")
    ∷ (203, codes "Non-Authoritative Information")
    ∷ (204, codes "No Content")
    ∷ (205, codes "Reset Content")
    ∷ (206, codes "Partial Content")
    ∷ (207, codes "Multi-Status")
    ∷ (208, codes "Already Reported")
    ∷ (226, codes "IM Used")
    ∷ (300, codes "Multiple Choices")
    ∷ (301, codes "Moved Permanently")
    ∷ (302, codes "Found")
    ∷ (303, codes "See Other")
    ∷ (304, codes "Not Modified")
    ∷ (305, codes "Use Proxy")
    ∷ (307, codes "Temporary Redirect")
    ∷ (308, codes "Permanent Redirect")
    ∷ (400, codes "Bad Request")
    ∷ (401, codes "Unauthorized")
    ∷ (402, codes "Payment Required")
    ∷ (403, codes "Forbidden")
    ∷ (404, codes "Not Found")
    ∷ (405, codes "Method Not Allowed")
    ∷ (406, codes "Not Acceptable")
    ∷ (407, codes "Proxy Authentication Required")
    ∷ (408, codes "Request Timeout")
    ∷ (409, codes "Conflict")
    ∷ (410, codes "Gone")
    ∷ (411, codes "Length Required")
    ∷ (412, codes "Precondition Failed")
    ∷ (413, codes "Request Entity Too Large")
    ∷ (414, codes "Request URI Too Long")
    ∷ (415, codes "Unsupported Media Type")
    ∷ (416, codes "Requested Range Not Satisfiable")
    ∷ (417, codes "Expectation Failed")
    ∷ (418, codes "I'm a teapot")
    ∷ (421, codes "Misdirected Request")
    ∷ (422, codes "Unprocessable Entity")
    ∷ (423, codes "Locked")
    ∷ (424, codes "Failed Dependency")
    ∷ (425, codes "Too Early")
    ∷ (426, codes "Upgrade Required")
    ∷ (428, codes "Precondition Required")
    ∷ (429, codes "Too Many Requests")
    ∷ (431, codes "Request Header Fields Too Large")
    ∷ (451, codes "Unavailable For Legal Reasons")
    ∷ (500, codes "Internal Server Error")
    ∷ (501, codes "Not Implemented")
    ∷ (502, codes "Bad Gateway")
    ∷ (503, codes "Service Unavailable")
    ∷ (504, codes "Gateway Timeout")
    ∷ (505, codes "HTTP Version Not Supported")
    ∷ (506, codes "Variant Also Negotiates")
    ∷ (507, codes "Insufficient Storage")
    ∷ (508, codes "Loop Detected")
    ∷ (510, codes "Not Extended")
    ∷ (511, codes "Network Authentication Required")
    ∷ []

text_of : List (ℕ × Text) → ℕ → Text
text_of [] code = []
text_of ((c, t) ∷ table) code = if c == code then t else text_of table code

-- http.StatusText
unfoldable pub status_text : ℕ → Text
unfolding text_of
status_text code = text_of status_texts code

-- the switch of `immediateErrorResponse`
unfoldable pub envoy_status : ℕ → StatusCode
envoy_status code =
    if code == 400
    then bad_request
    else if code == 401
    then unauthorized
    else if code == 403
    then forbidden
    else if code == 404
    then not_found
    else if code == 405
    then method_not_allowed
    else if code == 413
    then payload_too_large
    else if code == 429
    then too_many_requests
    else if code == 502
    then bad_gateway
    else if code == 503
    then service_unavailable
    else if code == 504
    then gateway_timeout
    else internal_server_error

abbrev pub content_type_header : Text → List HeaderValue
content_type_header t = record { key = codes "content-type"; value = []; raw_value = t } ∷ []

-- the message for the client
unfoldable pub client_message : ℕ → Text
unfolding is_empty
client_message code = let t = status_text code in if is_empty t then codes "Error" else t

unfoldable pub error_response : ℕ → ProcessingResponse
error_response code = immediate_response (record {
  status = some (envoy_status code);
  set_headers = content_type_header (codes "text/plain");
  body = client_message code;
})

-- `immediateErrorResponse`: the message is logged, and is not in the response
unfoldable pub immediate_error_response : ℕ → Text → Args → Exec (List ProcessingResponse)
immediate_error_response code format args = do
  emit (log_error code format args)
  pure (error_response code ∷ [])

-- the response of a forwarded request and of a key configuration
unfoldable pub ok_response : Text → Bytes → ProcessingResponse
ok_response content_type body = immediate_response (record {
  status = some status_ok;
  set_headers = content_type_header content_type;
  body = body;
})

module _ ⦃u : Unicode⦄ where
  unfoldable pub find_header : List HeaderValue → Text → Text
  find_header [] key_in_lower = []
  find_header (kv ∷ kvs) key_in_lower =
      if text_eq (to_lower kv.key) key_in_lower then kv.raw_value else find_header kvs key_in_lower

  -- `extractHeaderValue`: "" if a pointer on the way is nil or the key is missing
  unfoldable pub extract_header_value : Option HttpHeaders → Text → Text
  unfolding find_header
  extract_header_value none header_key = []
  extract_header_value (some h) header_key = elim h.headers [
    | none ↦ []
    | some kvs ↦ find_header kvs (to_lower header_key)
  ]
