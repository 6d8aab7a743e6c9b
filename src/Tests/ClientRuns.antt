-- ===== src/Tests/ClientRuns.antt =====
-- `main` of the test client at concrete inputs.
use ohttp_relay.Prelude.{true, ℕ, ◌≡◌, ◌↔◌, refl, none, some, [], ◌∷◌, ◌++◌}
use ohttp_relay.Text.{Bytes, codes, is_empty}
use ohttp_relay.Fault.{ok}
use ohttp_relay.Http.{Header, HttpRequest, HttpResponse, responded, set_header}
use ohttp_relay.Exec.{Env, Trace, http_do, ◌>>=◌}
use ohttp_relay.Gateway.{ohttp_configs_path}
use ohttp_relay.Keys.Fetch.{fetch_key_config, discovery_answer, discovery_request, strip_slash}
use ohttp_relay.Keys.Frame.{unframe, frame}
use ohttp_relay.Relay.{relay_request}
use ohttp_relay.Echo.{Writer, new_writer, echo_handler}
use ohttp_relay.Client.{Codec, key_source, outer_request}
use ohttp_relay.Client.Verdict.{passes}
use ohttp_relay.Client.Main.{Settings, Kit, load_key_config, main}
use ohttp_relay.Client.Main.Laws.{IsProof, answer, main_passes_iff}
use ohttp_relay.Client.Main.Relayed.{Answers, main_relayed}
use ohttp_relay.Tests.Fixtures.{world}
use ohttp_relay.Tests.KeyFiles.{small_libraries, small_system, small_config, framed_response}
use ohttp_relay.Tests.Coder.{encode, decode, reads, pinged_request, sealed_request, pinged}

abbrev relayed_header : Header
relayed_header =
    (relay_request (codes "http://gw") (9 ∷ []) (codes "message/ohttp-req") (codes "post")).header

-- what the gateway echoes
abbrev echoed : HttpResponse
echoed =
    let w : Writer =
      echo_handler encode (record pinged_request { outer = some relayed_header }) new_writer in
    record { status_code = 200; header = w.header; body = w.body; read_error = none }

-- a package that seals nothing and always opens the same answer
abbrev toy_codec : Codec HttpRequest HttpResponse ℕ
toy_codec = record { encapsulate = λ r. ok (sealed_request, 7); decapsulate = λ x resp. ok echoed }

abbrev toy_kit : Kit Bytes ℕ
toy_kit = record {
  unmarshal_binary = λ b. ok small_config;
  new_transport = λ kc url. ok toy_codec;
  marshal = λ test_data. ok (codes "json");
  client_do = λ rt. rt;
  decode = λ resp. decode resp.body;
  close_error = λ resp. none;
}

abbrev toy_settings : Settings
toy_settings = record {
  key_config_path = [];
  relay_url = codes "http://relay";
  gateway_url = codes "http://gw/";
}

abbrev toy_world : Env
toy_world = world (responded framed_response)

main_passes_iff_example :
    ((main small_libraries small_system toy_kit [] toy_settings toy_world []).0 ≡ passes) ↔ (
      (resp : HttpResponse) × ((answer small_libraries small_system toy_kit [] toy_settings
          toy_world []).0
        ≡ ok resp)
      × IsProof toy_kit resp)
main_passes_iff_example =
    main_passes_iff small_libraries small_system toy_kit [] toy_settings toy_world []

abbrev fetched : Trace
fetched = http_do (discovery_request (codes "http://gw" ++ ohttp_configs_path)) ∷ []

config_loaded :
    load_key_config small_libraries small_system toy_kit [] toy_settings toy_world []
    ≡ (ok small_config, fetched)
unfolding load_key_config key_source fetch_key_config discovery_answer strip_slash is_empty unframe
    frame set_header ◌>>=◌
config_loaded = refl

answers :
    Answers small_libraries small_system toy_kit [] toy_settings toy_world [] sealed_request fetched
      echoed
answers = record {
  key_config = small_config;
  loaded = config_loaded;
  codec = toy_codec;
  made = refl;
  json_data = codes "json";
  marshalled = refl;
  valid = refl;
  rd = 7;
  encapsulated = refl;
  sealed = framed_response;
  responds = refl;
  opened = refl;
  found = refl;
  closed = refl;
}

main_relayed_example :
    main small_libraries small_system toy_kit [] toy_settings toy_world []
    ≡ (passes, fetched ++ http_do (outer_request sealed_request) ∷ [])
main_relayed_example =
    main_relayed small_libraries small_system toy_kit [] toy_settings toy_world []
      (λ rt req env t t' resp trip found. trip) sealed_request fetched echoed answers encode decode
      reads refl pinged_request (codes "hello") refl pinged (codes "http://gw")
      (codes "message/ohttp-req") (codes "post") (9 ∷ []) true (refl, refl)
