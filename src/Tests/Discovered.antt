-- ===== src/Tests/Discovered.antt =====
-- The discovery of generated keys at concrete inputs.
use ohttp_relay.Prelude.{◌≡◌, ◌≢◌, Option, refl, sym, none, some, [], ◌∷◌, ◌++◌, if◌then◌else◌}
use ohttp_relay.Text.{Text, Bytes, codes, text_eq}
use ohttp_relay.Fault.{ok}
use ohttp_relay.Http.{responded}
use ohttp_relay.Exec.{http_do}
use ohttp_relay.Gateway.{Map, insert, lookup, ohttp_configs_path}
use ohttp_relay.Metrics.{init_metrics}
use ohttp_relay.Keys.{marshal_key_config}
use ohttp_relay.Keys.Fetch.{fetch_key_config, discovery_request}
use ohttp_relay.Keys.Files.{
  generated_config, gen_key_cmd, write_key_config_file, write_private_key_file, env_or,
}
use ohttp_relay.Echo.{
  Handler, new_writer, Request, write, write_header, status_of, handle_well_known_key_config,
}
use ohttp_relay.Echo.Setup.{env_paths, Kit, routes_of, start_gateway, generate_keys}
use ohttp_relay.Echo.Setup.Discovery.{
  IsKept, IsMux, IsWritten, config_url, pair_of, gateway_of, discovery,
}
use ohttp_relay.Tests.Fixtures.{world}
use ohttp_relay.Tests.KeyFiles.{
  small_libraries, small_system, two_bytes, written_disk, paths_apart, p256_ne, key_law, yaml_law,
  base_full, framed_response,
}

abbrev toy_environment : Text → Option Text
toy_environment name =
    if text_eq name (codes "KEY_CONFIG_FILE")
    then some (codes "keys")
    else if text_eq name (codes "PRIVATE_KEY_FILE")
    then some (codes "keys.priv")
    else none

abbrev toy_kit : Kit Bytes Bytes Unit
toy_kit = record {
  generate = ok (two_bytes, codes "secret");
  new_gateway = λ pair. ok tt;
  middleware = λ g h. h;
  marshal_binary = λ kc. ok kc.public_key;
  metrics_handler = λ r w. w;
  encode = λ e. ok e.body;
  exporter = none;
  meter = λ c. none;
  parse = λ name default. default;
}

abbrev toy_mux : Map Handler → Handler
toy_mux routes r w = elim (lookup routes r.path) [ none ↦ w | some h ↦ h r w ]

toy_mux-IsMux : IsMux toy_mux
toy_mux-IsMux routes r h found = rw (toy_mux, found) refl

abbrev config_request : Request
config_request = record {
  method = codes "GET";
  path = ohttp_configs_path;
  header = [];
  body = ok [];
  outer = none;
}

keys-IsKept : IsKept small_libraries small_system two_bytes (codes "secret")
keys-IsKept = record {
  some_kem = p256_ne;
  key = key_law;
  yaml = yaml_law;
  secret = λ bytes h. sym h;
}

apart : (env_paths toy_environment).0 ≢ (env_paths toy_environment).1
unfolding env_paths env_or text_eq
apart = paths_apart

keys_written :
    generate_keys small_libraries small_system toy_kit toy_environment [] ≡ ok written_disk
unfolding generate_keys env_paths env_or text_eq gen_key_cmd write_key_config_file
    write_private_key_file marshal_key_config insert
keys_written = refl

metrics_made : (init_metrics toy_kit.exporter toy_kit.meter).0 ≡ none
unfolding init_metrics
metrics_made = refl

config-IsWritten :
    IsWritten
      (toy_mux
        (routes_of toy_kit (pair_of small_libraries two_bytes (codes "secret")) tt)
        config_request
        new_writer)
      framed_response
unfolding routes_of handle_well_known_key_config write write_header status_of lookup text_eq
    generated_config
config-IsWritten = record { status = refl; body = refl; complete = refl }

public_bytes : toy_kit.marshal_binary (generated_config small_libraries two_bytes) ≡ ok two_bytes
unfolding generated_config
public_bytes = refl

discovery_example :
    (start_gateway small_libraries small_system toy_kit toy_environment written_disk
      ≡ ok (
          gateway_of toy_kit toy_environment
            (pair_of small_libraries two_bytes (codes "secret"))
            tt))
    × (fetch_key_config
          (λ b. ok (generated_config small_libraries b))
          (codes "http://gw/")
          (world (responded framed_response))
          []
        ≡ (
          ok (generated_config small_libraries two_bytes),
          [] ++ http_do (discovery_request (config_url (codes "http://gw/"))) ∷ [],
        ))
discovery_example =
    discovery small_libraries small_system toy_kit toy_environment two_bytes (codes "secret") tt []
      written_disk apart keys-IsKept (λ name default. refl) refl keys_written refl metrics_made
      toy_mux config_request framed_response toy_mux-IsMux refl config-IsWritten
      (λ b. ok (generated_config small_libraries b)) two_bytes public_bytes refl
      (codes "http://gw/") (world (responded framed_response)) [] base_full refl refl
