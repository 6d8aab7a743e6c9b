-- ===== src/Tests/Runs.antt =====
-- The definitions at concrete inputs.
use ohttp_relay.Prelude.{◌≡◌, refl, some, List, [], ◌∷◌, true}
use ohttp_relay.Text.{
  codes, to_lower, trim_space, equal_fold, split, text_eq, contains, split_n2, is_empty,
}
use ohttp_relay.Text.Decimal.{decimal}
use ohttp_relay.Fault.{sentinel, end_of_file, ok, err, message, end, text}
use ohttp_relay.Envoy.{request_headers, request_body}
use ohttp_relay.Config.{parse_domain_map, split_pair}
use ohttp_relay.Gateway.{insert}
use ohttp_relay.Exec.{Trace}
use ohttp_relay.Handlers.Process.{Input, received, process}
use ohttp_relay.Tests.Fixtures.{test_unicode, good_world, small_server, post_headers}

texts :
    (to_lower (codes "Example.COM") ≡ codes "example.com")
    × (trim_space (codes " \t a b ") ≡ codes "a b")
    × (equal_fold (codes "Message/OHTTP-req") (codes "message/ohttp-req") ≡ true)
    × (split b',' (codes "a,,b") ≡ codes "a" ∷ [] ∷ codes "b" ∷ [])
    × (decimal 502 ≡ codes "502")
unfolding to_lower trim_space equal_fold split decimal
texts = (refl, refl, refl, refl, refl)

parse_runs :
    (parse_domain_map (codes " A.com : https://gw/relay ,b=u=1,")
      ≡ ok ((codes "a.com", codes "https://gw/relay") ∷ (codes "b", codes "u=1") ∷ []))
    × (parse_domain_map (codes "nope")
        ≡ err (
            message
              (codes "invalid mapping %q, expected domain:url or domain=url")
              (text (codes "nope") end)))
unfolding parse_domain_map to_lower trim_space split split_pair split_n2 contains is_empty insert
    text_eq
parse_runs = (refl, refl)

abbrev post_run : List Input
post_run =
    received (ok (request_headers (some post_headers)))
    ∷ received (ok (request_body (codes "abc") true))
    ∷ received (err (sentinel end_of_file))
    ∷ []

run : Trace
run = (process small_server post_run good_world []).1
