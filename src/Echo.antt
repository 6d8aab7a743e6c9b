-- ===== src/Echo.antt =====
-- cmd/echo-gateway/main.go: the HTTP handlers of the echo gateway. ohttp.Middleware and the json
-- encoder are libraries, and parameters.
pub mod Setup
pub mod Laws
use ohttp_relay.Prelude.{ℕ, Option, none, some, List, [], ◌∷◌, ◌++◌}
use ohttp_relay.Text.{Text, Bytes, codes}
use ohttp_relay.Fault.{Result, ok, err}
use ohttp_relay.Http.{Header, set_header}
use ohttp_relay.Keys.Frame.{frame}

-- An http.ResponseWriter: the header map, what WriteHeader has sent of it with the status, and the
-- body. A failure to write to the client is only logged. What a server adds by itself, such as a
-- date or a content type that it guesses, is left out.
pub record Writer : Type 0 where
  pub header : Header
  pub sent : Option (ℕ × Header)
  pub body : Bytes

-- httptest.NewRecorder(), and the writer of a server before the handler
abbrev pub new_writer : Writer
new_writer = record { header = []; sent = none; body = [] }

abbrev pub set : Text → Text → Writer → Writer
set key value w = record w { header = set_header key value w.header }

-- WriteHeader: only the first call counts.
unfoldable pub write_header : ℕ → Writer → Writer
write_header code w = elim w.sent [ some s ↦ w | none ↦ record w { sent = some (code, w.header) } ]

-- Write: the status is 200 if there is none yet.
unfoldable pub write : Bytes → Writer → Writer
unfolding write_header
write bytes w = let w' : Writer = write_header 200 w in record w' { body = w'.body ++ bytes }

-- http.Error
unfoldable pub http_error : Text → ℕ → Writer → Writer
unfolding write_header write
http_error text code w = write (text ++ (10 ∷ [])) (
    write_header code (
      set (codes "X-Content-Type-Options") (codes "nosniff")
        (set (codes "Content-Type") (codes "text/plain; charset=utf-8") w)))

-- rec.Code
unfoldable pub status_of : Writer → ℕ
status_of w = elim w.sent [ none ↦ 200 | some (code, h) ↦ code ]

-- The request that a handler gets. `outer` is the value of the context under outerHeadersCtxKey.
pub record Request : Type 0 where
  pub method : Text
  pub path : Text
  pub header : Header
  pub body : Result Bytes
  pub outer : Option Header

abbrev pub Handler : Type 0
Handler = Request → Writer → Writer

-- handleWellKnownKeyConfig; `marshalled` is KeyConfig.MarshalBinary
unfoldable pub handle_well_known_key_config : Result Bytes → Handler
unfolding http_error write
handle_well_known_key_config marshalled r w =
    let w' : Writer = set (codes "Content-Type") (codes "application/ohttp-keys") w in
    elim marshalled [
      | err e ↦ http_error (codes "failed to marshal key config") 500 w'
      | ok config_bytes ↦ write (frame config_bytes) w'
    ]

-- outerHeadersFromContext
unfoldable pub outer_headers_from_context : Request → Header
outer_headers_from_context r = elim r.outer [ none ↦ [] | some h ↦ h ]

-- the map that echoHandler encodes
pub record Echo : Type 0 where
  pub method : Text
  pub path : Text
  pub headers : Header
  pub outer_headers : Header
  pub body : Bytes

unfoldable pub echo_of : Request → Bytes → Echo
unfolding outer_headers_from_context
echo_of r body = record {
  method = r.method;
  path = r.path;
  headers = r.header;
  outer_headers = outer_headers_from_context r;
  body = body;
}

-- echoHandler; `encode` is the json encoder, which writes nothing when it fails
unfoldable pub echo_handler : (Echo → Result Bytes) → Handler
unfolding http_error write
echo_handler encode r w = elim r.body [
  | err e ↦ http_error (codes "read request body") 500 w
  | ok body ↦
      let w' : Writer = set (codes "Content-Type") (codes "application/json") w in
      elim (encode (echo_of r body)) [
        | err e ↦ http_error (codes "encode response") 500 w'
        | ok bytes ↦ write bytes w'
      ]
]

-- captureOuterHeadersMiddleware: maps.Copy copies the header of the recorder onto itself.
unfoldable pub capture_outer_headers_middleware : Handler → Handler
unfolding write_header write status_of
capture_outer_headers_middleware next r w =
    let rec : Writer = next (record r { outer = some r.header }) new_writer in
    let rec' : Writer = set (codes "X-Test-Gateway-Outer") (codes "any value") rec in
    write rec'.body (write_header (status_of rec') w)
