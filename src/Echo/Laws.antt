-- ===== src/Echo/Laws.antt =====
-- main.go of the echo gateway: what a client gets of its handlers.
use ohttp_relay.Prelude.{◌∙◌, ◌∷◌, ◌≡◌, refl, ap, some, []}
use ohttp_relay.Text.{Bytes, codes}
use ohttp_relay.Fault.{Error, Result, ok, err}
use ohttp_relay.Http.{Header, set_header}
use ohttp_relay.Keys.Frame.{unframe, unframe-frame}
use ohttp_relay.Echo.{
  Writer, new_writer, set, write_header, write, http_error, status_of, Request, Handler,
  handle_well_known_key_config, outer_headers_from_context, Echo, echo_of, echo_handler,
  capture_outer_headers_middleware,
}

-- Whatever the inner handler is, the client gets its status and its body, but none of its headers:
-- those that are sent are the outer writer's, which has none. The inner handler sees the headers of
-- the outer request in its context.
pub middleware_loses_headers :
    (next : Handler) (r : Request)
    → let inner : Writer = next (record r { outer = some r.header }) new_writer in
      let w : Writer = capture_outer_headers_middleware next r new_writer in
      (w.sent ≡ some (status_of inner, [])) × (w.body ≡ inner.body)
unfolding capture_outer_headers_middleware write write_header status_of
middleware_loses_headers next r = (refl, refl)

pub echo_handler-eq :
    (encode : Echo → Result Bytes) (r : Request) (w : Writer) {body bytes : Bytes}
    → r.body ≡ ok body
    → encode (echo_of r body) ≡ ok bytes
    → echo_handler encode r w
      ≡ write bytes (set (codes "Content-Type") (codes "application/json") w)
unfolding echo_handler
echo_handler-eq encode r w readable encoded = rw (echo_handler, readable, encoded)

-- What ohttp.Middleware does with a request that it can decapsulate: the handler gets the inner request
-- in the context of the outer one, and its answer is sealed.
pub record Carries (ohttp : Handler → Handler) (r : Request) : Type 0 where
  pub inner : Request
  pub seal : Writer → Writer
  pub carried : (h : Handler) → ohttp h r new_writer ≡ seal (h inner new_writer)
  pub in_context : inner.outer ≡ r.outer

-- what the handler of the echo answers
abbrev pub echoed : Bytes → Writer
echoed bytes =
    let h : Header = (codes "Content-Type", codes "application/json") ∷ [] in
    record { header = h; sent = some (200, h); body = bytes }

-- If package ohttp carries the request, and its inner request has a readable body, it is echoed: the
-- client gets the status and the body of the sealed answer to the inner request, with the outer headers
-- in it, but no header that a handler has set.
pub echo_through_middleware :
    (ohttp : Handler → Handler) (encode : Echo → Result Bytes) (r : Request)
    (c : Carries ohttp (record r { outer = some r.header })) (body bytes : Bytes)
    → c.inner.body ≡ ok body
    → encode (record {
      method = c.inner.method;
      path = c.inner.path;
      headers = c.inner.header;
      outer_headers = r.header;
      body = body;
    })
      ≡ ok bytes
    → capture_outer_headers_middleware (ohttp (echo_handler encode)) r new_writer ≡ record {
      header = [];
      sent = some (status_of (c.seal (echoed bytes)), []);
      body = (c.seal (echoed bytes)).body;
    }
unfolding capture_outer_headers_middleware echo_of outer_headers_from_context write write_header
    status_of set_header
echo_through_middleware ohttp encode r c body bytes readable encoded =
    let captured : outer_headers_from_context c.inner ≡ r.header = rw (c.in_context) in
    let echo : encode (echo_of c.inner body) ≡ ok bytes = rw captured encoded in
    ap (λ (answer : Writer). write answer.body (write_header (status_of answer) new_writer))
      (c.carried (echo_handler encode)
        ∙ ap c.seal (echo_handler-eq encode c.inner new_writer readable echo))

-- The endpoint of the key configuration answers a configuration that is encoded as `b` with status
-- 200 and a body from which `unframe` of the client takes `b`, and one that cannot be encoded with
-- status 500.
pub well_known_served :
    (r : Request) (b : Bytes) (e : Error)
    → let served : Writer = handle_well_known_key_config (ok b) r new_writer in
      (status_of served ≡ 200)
      × (unframe served.body ≡ ok b)
      × (status_of (handle_well_known_key_config (err e) r new_writer) ≡ 500)
unfolding handle_well_known_key_config write write_header status_of http_error
well_known_served r b e = (refl, unframe-frame b, refl)
