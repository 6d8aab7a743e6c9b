-- ===== src/Tests/EndToEnd.antt =====
-- The theorems on a whole request at concrete inputs.
use ohttp_relay.Prelude.{
  ◌≡◌, ◌++◌, refl, none, some, List, [], ◌∷◌, ℤ, pos, true, false, arith, int64,
}
use ohttp_relay.Text.{Text, codes}
use ohttp_relay.Fault.{sentinel, end_of_file, ok, err}
use ohttp_relay.Envoy.{request_headers, request_body}
use ohttp_relay.Exec.{Trace}
use ohttp_relay.Config.{Config, default_config}
use ohttp_relay.Relay.{relay_request}
use ohttp_relay.Handlers.Response.{content_type_ohttp_req}
use ohttp_relay.Handlers.Server.{Server, StreamState}
use ohttp_relay.Handlers.Process.{Input, received, process, returned, new_loop}
use ohttp_relay.Handlers.Checks.{Passes, on_request_headers_iff}
use ohttp_relay.Handlers.Body.{chunk_inputs, final_input}
use ohttp_relay.Handlers.Exchange.{end_input}
use ohttp_relay.Handlers.Accounts.{total_received, total_sent, last_status}
use ohttp_relay.Handlers.Accounts.Rounds.{consumed}
use ohttp_relay.App.{
  redis_sources, Pings, choose_sources, run_relay_server, start, relay_runner, uses_redis,
}
use ohttp_relay.App.Booking.{IsBooked}
use ohttp_relay.App.Booking.Runs.{redis_metrics, process-IsBooked}
use ohttp_relay.App.Wiring.{sources_with, static_sources, server_of}
use ohttp_relay.App.Delivery.{Reachable, delivery, sizes}
use ohttp_relay.App.Delivery.Runs.{process-delivers}
use ohttp_relay.App.Accounts.{opened, recorded, process_accounts}
use ohttp_relay.Tests.Opens.{handler}
use ohttp_relay.Tests.Fixtures.{test_unicode, good_world, mappings, post_headers, opaque_response}

abbrev relay_config : Config
relay_config = record default_config { domain_map = mappings; max_request_body_size = pos 10 }

abbrev live : Pings
live = record { at_start = λ options. none; for_metrics = λ options. none }

abbrev relay_server : Server
relay_server = server_of relay_config (static_sources relay_config)

relay_started : run_relay_server relay_config live none ≡ ok relay_server
unfolding run_relay_server choose_sources start relay_runner uses_redis
relay_started = refl

abbrev no_state : StreamState
no_state = new_loop.st

posted : Passes (some post_headers)
unfolding handler
posted = (on_request_headers_iff relay_server (some post_headers) no_state good_world []).0 refl

gateway_reachable :
    Reachable good_world relay_config
      (some post_headers)
      (codes "abc")
      (codes "http://gw")
      opaque_response
unfolding handler
gateway_reachable = record {
  mapped = refl;
  url_given = λ h. cc h;
  url_valid = refl;
  answered = λ t. refl;
  complete = refl;
  good = refl;
  accepted = λ t r. refl;
}

process-delivers_example :
    process relay_server
      (received (ok (request_headers (some post_headers))) ∷ chunk_inputs (codes "ab" ∷ [])
        ++ final_input (codes "c") ∷ end_input ∷ [])
      good_world
      []
    ≡ (
      returned none,
      delivery good_world
          (codes "example.com")
          (relay_request (codes "http://gw") (codes "abc") content_type_ohttp_req (codes "post"))
          opaque_response
          (sizes (codes "abc") (codes "opaque-res")),
    )
unfolding handler uses_redis
process-delivers_example =
    process-delivers good_world relay_config live none relay_server (some post_headers)
      (codes "ab" ∷ []) (codes "c") (codes "http://gw") opaque_response 10 relay_started refl refl
      (omega arith) (omega arith) posted gateway_reachable

abbrev late_run : List Input
late_run =
    received (ok (request_headers (some post_headers)))
    ∷ received (ok (request_body (codes "hello world") false))
    ∷ received (ok (request_body (codes "c") true))
    ∷ received (err (sentinel end_of_file))
    ∷ []

late_return : (process relay_server late_run good_world []).0 ≡ returned none
unfolding handler
late_return = refl

process_accounts_example :
    (inner : Trace) × (method : Text) × (time : ℤ) × ((process relay_server late_run good_world
        []).1
      ≡ (opened ∷ inner)
        ++ recorded method time
            (last_status good_world.status_number 200 inner)
            (int64
              (total_received (consumed good_world relay_server late_run new_loop (opened ∷ []))))
            (int64 (total_sent inner)))
process_accounts_example =
    process_accounts good_world relay_config live none relay_server late_run none relay_started
      late_return

abbrev redis_config : Config
redis_config = record relay_config { redis_enable = true; redis_addr = codes "redis:6379" }

abbrev redis_server : Server
redis_server = server_of redis_config (sources_with redis_config redis_metrics)

redis_used : uses_redis redis_config ≡ true
unfolding uses_redis handler
redis_used = refl

redis_started : run_relay_server redis_config live none ≡ ok redis_server
unfolding run_relay_server choose_sources redis_sources start relay_runner uses_redis handler
redis_started = refl

process-IsBooked_example : IsBooked good_world [] (process redis_server late_run good_world []).1
process-IsBooked_example =
    process-IsBooked good_world redis_config live none redis_server late_run redis_started
      redis_used
