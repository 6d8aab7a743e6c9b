-- ===== src/Echo/Setup/Discovery.antt =====
-- The echo gateway and a client: the gateway that is started with the keys that `gen-key` has written
-- tells a client the key configuration that was generated.
use ohttp_relay.Prelude.{◌≡◌, ◌≢◌, refl, ◌∙◌, none, some, [], ◌∷◌, ◌++◌, All, Option}
use ohttp_relay.Text.{Text, Bytes, codes, text_eq}
use ohttp_relay.Fault.{Result, ok}
use ohttp_relay.Http.{HttpResponse, responded}
use ohttp_relay.Exec.{Env, Trace, http_do}
use ohttp_relay.Gateway.{Map, lookup, ohttp_configs_path}
use ohttp_relay.Metrics.{init_metrics}
use ohttp_relay.Keys.{KeyConfig, Libraries, yaml_of}
use ohttp_relay.Keys.Hex.{IsByte}
use ohttp_relay.Keys.Frame.{frame}
use ohttp_relay.Keys.Fetch.{
  fetch_key_config, strip_slash, discovery_request, fetch_key_config-frame,
}
use ohttp_relay.Keys.Files.{
  KeyPair, System, Disk, generated_config, load_key_pair_from_disk, env_or,
}
use ohttp_relay.Keys.Generated.{load-gen_key}
use ohttp_relay.Echo.{
  Writer, new_writer, Request, Handler, status_of, write, write_header,
  handle_well_known_key_config,
}
use ohttp_relay.Echo.Setup.{env_paths, Gateway, Kit, routes_of, start_gateway, generate_keys}

-- The libraries read back what they write of a key pair.
pub record IsKept {K S : Type 0} (lib : Libraries K) (sys : System S) (pk : K) (sk : S)
    : Type 0 where
  pub some_kem : lib.p256 ≢ 0
  pub key :
      (p_k : Bytes)
      → lib.marshal_public_key pk ≡ ok p_k
      → (lib.unmarshal_public_key lib.p256 p_k ≡ ok pk) × (p_k ≢ []) × All IsByte p_k
  pub yaml :
      (p_k bytes : Bytes)
      → lib.marshal_public_key pk ≡ ok p_k
      → lib.yaml_marshal (yaml_of lib (generated_config lib pk) p_k) ≡ ok bytes
      → lib.yaml_unmarshal bytes ≡ ok (yaml_of lib (generated_config lib pk) p_k)
  pub secret :
      (bytes : Bytes)
      → sys.marshal_private_key sk ≡ ok bytes
      → sys.unmarshal_private_key lib.p256 bytes ≡ ok sk

-- A mux gives a request for the path of a pattern to its handler.
abbrev pub IsMux : (Map Handler → Handler) → Type 0
IsMux mux =
    (routes : Map Handler) (r : Request) (h : Handler)
    → lookup routes r.path ≡ some h
    → mux routes r new_writer ≡ h r new_writer

-- a response is what a handler has written
pub record IsWritten (w : Writer) (resp : HttpResponse) : Type 0 where
  pub status : resp.status_code ≡ status_of w
  pub body : resp.body ≡ w.body
  pub complete : resp.read_error ≡ none

abbrev pub config_url : Text → Text
config_url base = strip_slash base ++ ohttp_configs_path

abbrev pub pair_of : {K S : Type 0} → Libraries K → K → S → KeyPair K S
pair_of lib pk sk = record { secret_key = sk; key_config = generated_config lib pk }

-- the server that is started with a pair
abbrev pub gateway_of :
    {K S G : Type 0} → Kit K S G → (Text → Option Text) → KeyPair K S → G → Gateway
gateway_of kit env_value pair g = record {
  port = env_or (env_value (codes "GATEWAY_PORT")) (codes "8888");
  routes = routes_of kit pair g;
}

module _ {K S G : Type 0} (lib : Libraries K) (sys : System S) (kit : Kit K S G)
    (env_value : Text → Option Text) where
  started :
      (pk : K) (sk : S) (g : G) (new : Disk)
      → load_key_pair_from_disk lib sys (env_paths env_value).0 (env_paths env_value).1 new
        ≡ ok (pair_of lib pk sk)
      → kit.new_gateway (pair_of lib pk sk) ≡ ok g
      → (init_metrics kit.exporter kit.meter).0 ≡ none
      → start_gateway lib sys kit env_value new
        ≡ ok (gateway_of kit env_value (pair_of lib pk sk) g)
  unfolding start_gateway
  started pk sk g new loaded made metrics = rw (start_gateway, loaded, made, metrics) refl

  loads :
      (pk : K) (sk : S) (disk new : Disk)
      → (env_paths env_value).0 ≢ (env_paths env_value).1
      → IsKept lib sys pk sk
      → ((name default : Text) → kit.parse name default ≡ default)
      → kit.generate ≡ ok (pk, sk)
      → generate_keys lib sys kit env_value disk ≡ ok new
      → load_key_pair_from_disk lib sys (env_paths env_value).0 (env_paths env_value).1 new
        ≡ ok (pair_of lib pk sk)
  unfolding generate_keys
  loads pk sk disk new apart kept no_flags drawn written =
      load-gen_key lib sys _ _ pk sk disk new apart (kept.some_kem) (kept.key) (kept.yaml)
        (kept.secret)
        (rw (no_flags (codes "keyconfig") _, no_flags (codes "priv") _, drawn) at written)

  served :
      (pair : KeyPair K S) (g : G) (mux : Map Handler → Handler) (r : Request) (bytes : Bytes)
      → IsMux mux
      → r.path ≡ ohttp_configs_path
      → kit.marshal_binary pair.key_config ≡ ok bytes
      → let w : Writer = mux (routes_of kit pair g) r new_writer in
        (status_of w ≡ 200) × (w.body ≡ frame bytes)
  unfolding routes_of handle_well_known_key_config write write_header status_of lookup text_eq
  served pair g mux r bytes is_mux path encoded =
      let h : Handler = handle_well_known_key_config (kit.marshal_binary pair.key_config) in
      let found : lookup (routes_of kit pair g) r.path ≡ some h = rw path refl in
      rw (is_mux (routes_of kit pair g) r h found, encoded) (refl, refl)

  -- `gen-key` without flags succeeds with two different paths, and the libraries read back what they
  -- write of the keys: then the gateway that is started on the same disk, if it can be created with these keys and
  -- the metrics with it, serves, and a client whose request for the key configuration is answered by the mux of this
  -- gateway gets the generated configuration.
  pub discovery :
      (pk : K) (sk : S) (g : G) (disk new : Disk)
      → (env_paths env_value).0 ≢ (env_paths env_value).1
      → IsKept lib sys pk sk
      → ((name default : Text) → kit.parse name default ≡ default)
      → kit.generate ≡ ok (pk, sk)
      → generate_keys lib sys kit env_value disk ≡ ok new
      → kit.new_gateway (pair_of lib pk sk) ≡ ok g
      → (init_metrics kit.exporter kit.meter).0 ≡ none
      → (mux : Map Handler → Handler) (r : Request) (resp : HttpResponse) → IsMux mux
      → r.path ≡ ohttp_configs_path
      → IsWritten (mux (routes_of kit (pair_of lib pk sk) g) r new_writer) resp
      → (unmarshal_binary : Bytes → Result (KeyConfig K)) (bytes : Bytes)
      → kit.marshal_binary (generated_config lib pk) ≡ ok bytes
      → unmarshal_binary bytes ≡ ok (generated_config lib pk)
      → (base : Text) (env : Env) (t : Trace) → base ≢ []
      → env.new_request_error (codes "GET") (config_url base) ≡ none
      → env.client_do t (discovery_request (config_url base)) ≡ responded resp
      → (start_gateway lib sys kit env_value new
          ≡ ok (gateway_of kit env_value (pair_of lib pk sk) g))
        × (fetch_key_config unmarshal_binary base env t ≡ (
          ok (generated_config lib pk),
          t ++ http_do (discovery_request (config_url base)) ∷ [],
        ))
  discovery pk sk g disk new apart kept no_flags drawn written made metrics mux r resp is_mux path w
        unmarshal_binary bytes encoded decoded base env t full valid answered =
      let (status, body) = served (pair_of lib pk sk) g mux r bytes is_mux path encoded in
      (
        started pk sk g new (loads pk sk disk new apart kept no_flags drawn written) made metrics,
        fetch_key_config-frame unmarshal_binary base bytes (generated_config lib pk) resp env t full
            valid answered (w.status ∙ status) w.complete (w.body ∙ body) decoded,
      )
