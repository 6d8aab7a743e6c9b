-- ===== src/Tests/Examples.antt =====
-- The theorems at concrete inputs.
use ohttp_relay.Prelude.{◌≡◌, refl, none, some, List, [], ◌∷◌, pos, true, false, arith, All}
use ohttp_relay.Text.{codes}
use ohttp_relay.Fault.{sentinel, end_of_file, ok, err}
use ohttp_relay.Envoy.{request_headers, request_body}
use ohttp_relay.Config.{Config, default_config}
use ohttp_relay.Handlers.Server.{Server}
use ohttp_relay.Handlers.Process.{Input, received, process}
use ohttp_relay.Handlers.Tally.{Counts, finished}
use ohttp_relay.App.{Pings, choose_sources, run_relay_server, start, relay_runner, uses_redis}
use ohttp_relay.App.Wiring.{static_sources, server_of}
use ohttp_relay.App.Safety.{
  trace_of, IsClean, IsHonest, IsBounded, process-IsClean, process-IsHonest,
  process-Counts_of_server, process-IsBounded,
}
use ohttp_relay.App.Destinations.{IsDestined, process-IsDestined}
use ohttp_relay.Tests.Fixtures.{test_unicode, good_world, mappings, post_headers}

abbrev test_config : Config
test_config = record default_config { domain_map = mappings; max_request_body_size = pos 10 }

abbrev test_pings : Pings
test_pings = record { at_start = λ options. none; for_metrics = λ options. none }

abbrev test_server : Server
test_server = server_of test_config (static_sources test_config)

started : run_relay_server test_config test_pings none ≡ ok test_server
unfolding run_relay_server choose_sources start relay_runner uses_redis
started = refl

abbrev post_run : List Input
post_run =
    received (ok (request_headers (some post_headers)))
    ∷ received (ok (request_body (codes "ab") false))
    ∷ received (ok (request_body (codes "c") true))
    ∷ received (err (sentinel end_of_file))
    ∷ []

process-IsClean_example : All IsClean (trace_of test_server post_run good_world)
process-IsClean_example =
    process-IsClean good_world test_config test_pings none test_server post_run started

process-IsHonest_example : All (IsHonest good_world) (trace_of test_server post_run good_world)
process-IsHonest_example =
    process-IsHonest good_world test_config test_pings none test_server post_run started

process-Counts_of_server_example :
    let r = process test_server post_run good_world [] in Counts r.1 1 (finished r.0) (finished r.0)
process-Counts_of_server_example =
    process-Counts_of_server good_world test_config test_pings none test_server post_run started

process-IsBounded_example : All (IsBounded 10) (trace_of test_server post_run good_world)
process-IsBounded_example =
    process-IsBounded good_world test_config test_pings none test_server post_run 10 started refl
      (omega arith) (omega arith)

process-IsDestined_example :
    All (IsDestined good_world test_config) (process test_server post_run good_world []).1
process-IsDestined_example =
    process-IsDestined good_world test_config test_pings none test_server post_run started
