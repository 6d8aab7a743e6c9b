-- ===== src/Config.antt =====
-- pkg/ohttp-relay/config/config.go: the flags of the service, and the parsing of the static mappings
-- of domains to gateway URLs.
pub mod Laws
pub mod Errors
pub mod Render
pub mod Order
use ohttp_relay.Prelude.{◌*◌, ◌^◌, Bool, false, ◌||◌, List, [], ◌∷◌, ℤ, pos, if◌then◌else◌}
use ohttp_relay.Text.{
  Text, codes, is_empty, contains, split, split_n2, Unicode, to_lower, trim_space,
}
use ohttp_relay.Fault.{message, end, text, wrapped, Result, ok, err, bind}
use ohttp_relay.Gateway.{Map, insert}

-- Durations are in nanoseconds.
pub record Config : Type 0 where
  pub grpc_port : ℤ
  pub grpc_health_port : ℤ
  pub metrics_port : ℤ
  pub metrics_addr : Text
  pub gateway_urls : Text
  pub redis_enable : Bool
  pub redis_addr : Text
  pub redis_password : Text
  pub redis_db : ℤ
  pub redis_tls : Bool
  pub timeout : ℤ
  pub max_request_body_size : ℤ
  pub log_verbosity : ℤ
  pub domain_map : Map Text

-- DEFAULT of pkg/ohttp-relay/util/logging/logging_const.go
abbrev pub default_verbosity : ℤ
default_verbosity = pos 2

-- the defaults of the flags
abbrev pub default_config : Config
default_config = record {
  grpc_port = pos 9006;
  grpc_health_port = pos 9007;
  metrics_port = pos 9090;
  metrics_addr = [];
  gateway_urls = [];
  redis_enable = false;
  redis_addr = [];
  redis_password = [];
  redis_db = pos 0;
  redis_tls = false;
  timeout = pos (9 * 10 ^ 9);
  max_request_body_size = pos (10 * 1024 * 1024);
  log_verbosity = default_verbosity;
  domain_map = [];
}

-- the key and the value of a mapping: at the first "=", or at the first ":" if there is no "="
unfoldable pub split_pair : Text → List Text
split_pair p = if contains b'=' p then split_n2 b'=' p else split_n2 b':' p

module _ ⦃u : Unicode⦄ where
  -- the checks on the two halves; `m` is the map so far
  unfoldable pub add_halves : Text → List Text → Map Text → Result (Map Text)
  unfolding is_empty
  add_halves p (k ∷ v ∷ []) m =
      let domain = to_lower (trim_space k) in
      let url = trim_space v in
      if is_empty domain || is_empty url
      then err (message (codes "invalid mapping %q, empty domain or url") (text p end))
      else ok (insert m domain url)
  add_halves p _ m =
      err (message (codes "invalid mapping %q, expected domain:url or domain=url") (text p end))

  -- one round of the loop over the pairs
  unfoldable pub add_pair : Text → Map Text → Result (Map Text)
  unfolding is_empty add_halves
  add_pair pair m =
      let p = trim_space pair in if is_empty p then ok m else add_halves p (split_pair p) m

  unfoldable pub add_pairs : List Text → Map Text → Result (Map Text)
  unfolding add_pair
  add_pairs [] m = ok m
  add_pairs (p ∷ ps) m = bind (add_pair p m) (λ m'. add_pairs ps m')

  -- `parseDomainMap`
  unfoldable pub parse_domain_map : Text → Result (Map Text)
  unfolding is_empty add_pairs
  parse_domain_map spec =
      if is_empty (trim_space spec) then ok [] else add_pairs (split b',' spec) []

  abbrev finish_load : Config → Result (Map Text) → Result Config
  finish_load c (ok m) = ok (record c { domain_map = m })
  finish_load c (err e) = err (message (codes "parse domain map: %w") (wrapped e end))

  -- `Load`, from the values that the flags have after flag.Parse and from the variable
  -- REDIS_PASSWORD of the process, "" if it is not set
  unfoldable pub load : Config → Text → Result Config
  unfolding is_empty parse_domain_map
  load flags env_pass =
      let c : Config = record flags {
        redis_password = if is_empty env_pass then flags.redis_password else env_pass;
      } in
      finish_load c (parse_domain_map c.gateway_urls)
