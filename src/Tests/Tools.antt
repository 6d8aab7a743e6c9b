-- ===== src/Tests/Tools.antt =====
-- The echo gateway and the test client at concrete inputs.
use ohttp_relay.Prelude.{◌≡◌, refl, none, some, [], ◌∷◌}
use ohttp_relay.Text.{Bytes, codes}
use ohttp_relay.Fault.{Result, ok}
use ohttp_relay.Echo.{
  Handler, status_of, Writer, new_writer, Request, Echo, echo_handler,
  capture_outer_headers_middleware,
}
use ohttp_relay.Echo.Laws.{Carries, echo_through_middleware}

abbrev echo_request : Request
echo_request = record {
  method = codes "POST";
  path = codes "/";
  header = (codes "X-A", codes "b") ∷ [];
  body = ok (codes "hello");
  outer = none;
}

-- an encoder that writes the body alone
abbrev body_only : Echo → Result Bytes
body_only e = ok e.body

-- A package that finds the inner request in the body, and seals an answer by a byte before it.
abbrev carried_request : Request → Request
carried_request r = record r { header = (codes "X-B", codes "c") ∷ []; body = ok (codes "hello") }

abbrev sealed_answer : Writer → Writer
sealed_answer w = record w { body = 0 ∷ w.body }

abbrev toy_ohttp : Handler → Handler
toy_ohttp next r w = sealed_answer (next (carried_request r) w)

abbrev carries : Carries toy_ohttp (record echo_request { outer = some echo_request.header })
carries = record {
  inner = carried_request (record echo_request { outer = some echo_request.header });
  seal = sealed_answer;
  carried = λ h. refl;
  in_context = refl;
}

echo_through_middleware_example :
    capture_outer_headers_middleware (toy_ohttp (echo_handler body_only)) echo_request new_writer
    ≡ record { header = []; sent = some (200, []); body = 0 ∷ codes "hello" }
unfolding status_of
echo_through_middleware_example =
    echo_through_middleware toy_ohttp body_only echo_request carries (codes "hello") (codes "hello")
      refl refl
