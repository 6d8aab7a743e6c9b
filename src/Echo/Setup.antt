-- ===== src/Echo/Setup.antt =====
-- cmd/echo-gateway/main.go: `main` up to the start of its server. What is logged is left out. `K` and `S`
-- are public and private keys, and `G` is the ohttp.Gateway.
pub mod Discovery
use ohttp_relay.Prelude.{Bool, false, Option, none, some, List, [], ◌∷◌, ◌++◌, if◌then◌else◌}
use ohttp_relay.Text.{Text, Bytes, codes, text_eq}
use ohttp_relay.Fault.{Error, message, end, wrapped, Result, ok, err, bind}
use ohttp_relay.Gateway.{Map, ohttp_configs_path}
use ohttp_relay.Metrics.{Creation, init_metrics}
use ohttp_relay.Keys.{KeyConfig, Libraries}
use ohttp_relay.Keys.Files.{
  KeyPair, System, Disk, wrap, env_or, gen_key_cmd, load_key_pair_from_disk,
}
use ohttp_relay.Echo.{
  Handler, Echo, handle_well_known_key_config, echo_handler, capture_outer_headers_middleware,
}

abbrev pub default_key_config_path : Text
default_key_config_path = codes "keyconfig-ohttp.yaml"

abbrev pub default_private_key_path : Text
default_private_key_path = codes "ohttp-gateway.key"

-- the names of the key configuration file and of the private key file
abbrev pub Paths : Type 0
Paths = Text × Text

-- `env_value` is os.LookupEnv
unfoldable pub env_paths : (Text → Option Text) → Paths
unfolding env_or
env_paths env_value = (
  env_or (env_value (codes "KEY_CONFIG_FILE")) default_key_config_path,
  env_or (env_value (codes "PRIVATE_KEY_FILE")) default_private_key_path,
)

-- whether os.Args asks for new keys
unfoldable pub is_gen_key : List Text → Bool
is_gen_key (program ∷ command ∷ rest) = text_eq command (codes "gen-key")
is_gen_key _ = false

-- the port of the server, and the handlers that are registered with its mux, by their patterns
pub record Gateway : Type 0 where
  pub port : Text
  pub routes : Map Handler

-- What `main` calls: NewGateway and Middleware of package ohttp, MarshalBinary of a key
-- configuration, the handler of the metrics, the json encoder, and what creates the metrics; and the
-- values of the flags of `gen-key` from their names and their defaults.
pub record Kit (K S G : Type 0) : Type 0 where
  pub generate : Result (K × S)
  pub new_gateway : KeyPair K S → Result G
  pub middleware : G → Handler → Handler
  pub marshal_binary : KeyConfig K → Result Bytes
  pub metrics_handler : Handler
  pub encode : Echo → Result Bytes
  pub exporter : Option Error
  pub meter : Creation → Option Error
  pub parse : Text → Text → Text

abbrev metrics_made : Option Error → Result (Unit {0})
metrics_made none = ok tt
metrics_made (some e) = err e

module _ {K S G : Type 0} (kit : Kit K S G) where
  unfoldable pub routes_of : KeyPair K S → G → Map Handler
  routes_of pair gateway =
      (ohttp_configs_path, handle_well_known_key_config (kit.marshal_binary pair.key_config))
      ∷ (codes "/metrics", kit.metrics_handler)
      ∷ (
        codes "/",
        capture_outer_headers_middleware (kit.middleware gateway (echo_handler kit.encode)),
      )
      ∷ []

module _ {K S G : Type 0} (lib : Libraries K) (sys : System S) (kit : Kit K S G)
    (env_value : Text → Option Text) (disk : Disk) where
  -- `main` without a command, up to the start of the server; an error ends the program
  unfoldable pub start_gateway : Result Gateway
  unfolding env_paths env_or routes_of
  start_gateway =
      let (config_path, priv_path) = env_paths env_value in
      bind (load_key_pair_from_disk lib sys config_path priv_path disk) λ pair.
        bind (kit.new_gateway pair) λ gateway.
          bind (metrics_made (init_metrics kit.exporter kit.meter).0) λ _. ok (record {
            port = env_or (env_value (codes "GATEWAY_PORT")) (codes "8888");
            routes = routes_of kit pair gateway;
          })

  -- genKeyCmd
  unfoldable pub generate_keys : Result Disk
  unfolding env_paths
  generate_keys =
      let (config_path, priv_path) = env_paths env_value in
      gen_key_cmd lib sys (kit.parse (codes "keyconfig") config_path)
        (kit.parse (codes "priv") priv_path) kit.generate disk

-- how `main` goes on: it is over and has left a disk, or it serves
pub data Progress : Type 0 where
  generated : Result Disk → Progress
  serving : Result Gateway → Progress

unfoldable pub main :
    {K S G : Type 0}
    → Libraries K
    → System S
    → Kit K S G
    → (Text → Option Text)
    → List Text
    → Disk
    → Progress
unfolding is_gen_key start_gateway generate_keys
main lib sys kit env_value args disk =
    if is_gen_key args
    then generated (generate_keys lib sys kit env_value disk)
    else serving (start_gateway lib sys kit env_value disk)
