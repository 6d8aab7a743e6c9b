-- ===== src/Tests/Handling.antt =====
-- The theorems about the handler and its parts at concrete inputs.
use ohttp_relay.Prelude.{
  ◌≡◌, ◌≢◌, ◌↔◌, refl, Option, none, some, List, [], ◌∷◌, ◌++◌, pos, true, false, arith,
}
use ohttp_relay.Text.{Bytes, codes}
use ohttp_relay.Fault.{Error, sentinel, end_of_file, ok, err}
use ohttp_relay.Envoy.{request_body, HttpHeaders, request_headers, internal_server_error}
use ohttp_relay.Exec.{◌>>=◌}
use ohttp_relay.Handlers.Response.{extract_header_value, content_type_ohttp_req}
use ohttp_relay.Handlers.Server.{
  new_server, StreamState, capture, lower_header, is_foreign, on_request_headers,
  forward_and_respond, finish_forward,
}
use ohttp_relay.Handlers.Process.{
  Loop, dispatch_result, proceed, Input, received, new_loop, returned, rounds, process,
}
use ohttp_relay.Handlers.Checks.{plain, Passes, on_request_headers_iff, rejected_with_500}
use ohttp_relay.Handlers.Body.{
  chunk_inputs, final_input, with_body, rounds_of_chunks, chunking_irrelevant, gateway_verdict,
  forwarded_type, forward_verdict, forwarded_request,
}
use ohttp_relay.Handlers.Exchange.{end_input, exchange, process-refines}
use ohttp_relay.Handlers.Late.{refused, tail_forwarded}
use ohttp_relay.Handlers.Return.{HasCleanEnd, nil_return, returns_at_last}
use ohttp_relay.Gateway.{ohttp_configs_path}
use ohttp_relay.Tests.Fixtures.{test_unicode, good_world, header, post_headers, small_server}
use ohttp_relay.Tests.Opens.{handler}

abbrev start : StreamState
start = new_loop.st

on_request_headers_iff_example :
    ((on_request_headers small_server (some post_headers) start good_world []).0.0 ≡ ok [])
    ↔ Passes (some post_headers)
on_request_headers_iff_example =
    on_request_headers_iff small_server (some post_headers) start good_world []

passes : Passes (some post_headers)
unfolding handler
passes = (on_request_headers_iff small_server (some post_headers) start good_world []).0 refl

abbrev foreign_headers : HttpHeaders
foreign_headers = record {
  headers = some (header ":method" "POST" ∷ header "content-type" "text/html" ∷ []);
}

abbrev config_headers : HttpHeaders
config_headers = record {
  headers = some (header ":method" "GET" ∷ header ":path" "/.well-known/ohttp-configs" ∷ []);
}

foreign_path : extract_header_value (some foreign_headers) (codes ":path") ≢ ohttp_configs_path
unfolding handler
foreign_path h = cc

foreign_post : lower_header (some foreign_headers) (codes ":method") (codes "method") ≡ codes "post"
unfolding handler
foreign_post = refl

rejected_with_500_example :
    (is_foreign (extract_header_value (some foreign_headers) (codes "content-type")) ≡ true
      → (on_request_headers small_server (some foreign_headers) start good_world []).0.0
        ≡ ok (plain internal_server_error "Unsupported Media Type" ∷ []))
    × (is_foreign (extract_header_value (some foreign_headers) (codes "content-type")) ≡ false
        → extract_header_value (some foreign_headers) (codes "content-length") ≡ []
        → (on_request_headers small_server (some foreign_headers) start good_world []).0.0
          ≡ ok (plain internal_server_error "Length Required" ∷ []))
rejected_with_500_example =
    rejected_with_500 small_server (some foreign_headers) start good_world [] foreign_path
      foreign_post

config_path : extract_header_value (some config_headers) (codes ":path") ≡ ohttp_configs_path
unfolding handler
config_path = refl

small_limit : small_server.max_request_body_size ≡ pos 10
unfolding new_server
small_limit = refl

chunking_irrelevant_example :
    rounds small_server
      (chunk_inputs (codes "ab" ∷ [] ∷ []) ++ final_input (codes "c") ∷ [])
      new_loop
      good_world
      []
    ≡ rounds small_server (final_input (codes "abc") ∷ []) new_loop good_world []
chunking_irrelevant_example =
    chunking_irrelevant small_server good_world 10 small_limit (omega arith) (codes "ab" ∷ [] ∷ [])
      (codes "c") [] new_loop [] (omega arith) (omega arith)

process-refines_example :
    process small_server
      (received (ok (request_headers (some post_headers))) ∷ chunk_inputs (codes "ab" ∷ [] ∷ [])
        ++ final_input (codes "c") ∷ end_input ∷ [])
      good_world
      []
    ≡ exchange small_server (some post_headers) (codes "abc") good_world []
process-refines_example =
    process-refines small_server good_world (some post_headers) passes (codes "ab" ∷ [] ∷ [])
      (codes "c") 10 [] small_limit (omega arith) (omega arith)

abbrev long_chunk : Bytes
long_chunk = codes "hello world"

tail_forwarded_example :
    (l' : Loop) × (l'.st ≡ record start { body = codes "ab" })
    × (rounds small_server
          (received (ok (request_body long_chunk false)) ∷ final_input (codes "ab") ∷ [])
          new_loop
          good_world
          []
        ≡ (small_server.relayer start.host (codes "ab") (forwarded_type start) start.http_method
              >>= (λ r. finish_forward small_server l'.st r)
              >>= (λ r. dispatch_result r l')
              >>= proceed (rounds small_server []))
            good_world
            (refused []))
tail_forwarded_example =
    tail_forwarded small_server good_world 10 small_limit (omega arith) (λ t resp. refl) new_loop
      long_chunk (codes "ab") [] [] refl (omega arith) (omega arith) (omega arith)

rounds_of_chunks_example :
    rounds small_server (chunk_inputs (codes "ab" ∷ codes "cd" ∷ []) ++ []) new_loop good_world []
    ≡ rounds small_server [] (with_body new_loop (codes "abcd")) good_world []
rounds_of_chunks_example =
    rounds_of_chunks small_server good_world 10 small_limit (omega arith)
      (codes "ab" ∷ codes "cd" ∷ []) [] new_loop [] (omega arith) (omega arith)

forward_verdict_example :
    (forward_and_respond small_server start good_world []).0
    ≡ ok (
        gateway_verdict (small_server.relayer [] [] (forwarded_type start) [] good_world []).0 ∷ [])
forward_verdict_example = forward_verdict small_server start good_world [] refl

forwarded_request_example :
    forward_and_respond small_server
      (record (capture (some post_headers) start) { body = codes "abc" })
      good_world
      []
    ≡ (small_server.relayer
            (lower_header (some post_headers) (codes ":authority") (codes "host"))
            (codes "abc")
            content_type_ohttp_req
            (codes "post")
          >>= finish_forward small_server
              (record (capture (some post_headers) start) { body = codes "abc" }))
        good_world []
forwarded_request_example =
    forwarded_request small_server (some post_headers) start (codes "abc") good_world [] passes refl

abbrev closed : List Input
closed = received (err (sentinel end_of_file)) ∷ []

closed_run : (process small_server closed good_world []).0 ≡ returned none
unfolding handler
closed_run = refl

nil_return_example : HasCleanEnd closed
nil_return_example = nil_return small_server good_world closed [] closed_run

returns_at_last_example :
    (e : Option Error) × ((process small_server
        (received (ok (request_headers (some post_headers)))
          ∷ received (err (sentinel end_of_file))
          ∷ [])
        good_world
        []).0
      ≡ returned e)
returns_at_last_example =
    returns_at_last small_server good_world
      (received (ok (request_headers (some post_headers))) ∷ [])
      (received (err (sentinel end_of_file))) [] [] tt
