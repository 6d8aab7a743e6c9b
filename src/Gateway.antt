-- ===== src/Gateway.antt =====
-- pkg/ohttp-relay/gateway: where the URL and the key configuration of a host come from.
-- source.go: the interfaces, `FallbackSource` and `ChainSources`; static.go: the static maps and the
-- key configuration over HTTP; redis.go: the gateway URLs in Redis.
pub mod Effects
pub mod Laws
use ohttp_relay.Prelude.{
  ◌*◌, ◌^◌, Option, none, some, List, [], ◌∷◌, ◌++◌, ℤ, pos, ltb_ℤ, ◌==◌, not, if◌then◌else◌,
}
use ohttp_relay.Text.{Text, Bytes, codes, is_empty, text_eq, Unicode, to_lower, trim_space}
use ohttp_relay.Fault.{message, end, text, number, wrapped, Result, ok, err, redis_nil, is}
use ohttp_relay.Http.{HttpRequest, DoResult, responded, failed, set_header}
use ohttp_relay.Exec.{redis_hget, http_do, Exec, pure, ask, perform, ◌>>=◌}

-- A Go map with string keys. The order of its entries is never observed.
abbrev pub Map : Type 0 → Type 0
Map V = List (Text × V)

unfoldable pub lookup : {V : Type 0} → Map V → Text → Option V
lookup [] key = none
lookup ((k, v) ∷ m) key = if text_eq k key then some v else lookup m key

-- m[key] = value
unfoldable pub insert : {V : Type 0} → Map V → Text → V → Map V
insert [] key value = (key, value) ∷ []
insert ((k, v) ∷ m) key value =
    if text_eq k key then (key, value) ∷ m else (k, v) ∷ insert m key value

-- m[key], of a map to strings or byte slices: the zero value for a missing key is empty
unfoldable pub get : Map Text → Text → Text
unfolding lookup
get m key = elim (lookup m key) [ none ↦ [] | some v ↦ v ]

-- URLSource.TargetURL and KeyConfigSource.KeyConfig
abbrev pub UrlSource : Type 0
UrlSource = Text → Exec (Result Text)

abbrev pub KeyConfigSource : Type 0
KeyConfigSource = Text → Exec (Result Bytes)

-- FallbackSource
unfoldable pub or_default : Text → Result Text → Result Text
unfolding is_empty
or_default default_url (err e) = err e
or_default default_url (ok gw) = if not (is_empty gw) then ok gw else ok default_url

unfoldable pub fallback_source : Text → UrlSource → UrlSource
unfolding or_default
fallback_source default_url source host = do r ← source host; pure (or_default default_url r)

-- ChainSources; `rest` is what the loop goes on with
unfoldable pub chain_round : Result Text → Exec (Result Text) → Exec (Result Text)
unfolding is_empty
chain_round (err e) rest = pure (err e)
chain_round (ok gw) rest = if not (is_empty gw) then pure (ok gw) else rest

unfoldable pub chain_sources : List UrlSource → UrlSource
unfolding chain_round
chain_sources [] host = pure (ok [])
chain_sources (s ∷ sources) host = do r ← s host; chain_round r (chain_sources sources host)

-- StaticMapURLSource and StaticMapKeyConfigSource
unfoldable pub static_map_url_source : Map Text → UrlSource
static_map_url_source source host = pure (ok (get source host))

unfoldable pub static_map_key_config_source : Map Bytes → KeyConfigSource
static_map_key_config_source source host = pure (ok (get source host))

-- RedisGatewaySource with its timeout in nanoseconds; NewRedisGatewaySource
pub record RedisGatewaySource : Type 0 where
  pub timeout : ℤ

unfoldable pub new_redis_gateway_source : ℤ → RedisGatewaySource
new_redis_gateway_source ttl = record {
  timeout = if ltb_ℤ (pos 0) ttl then ttl else pos (5 * 10 ^ 9);
}

unfoldable pub hget_answer : Result Text → Result Text
unfolding is
hget_answer (ok v) = ok v
hget_answer (err e) = if not (is redis_nil e) then err e else ok []

-- NewHttpKeyConfigSource
abbrev pub ohttp_configs_path : Text
ohttp_configs_path = codes "/.well-known/ohttp-configs"

abbrev pub key_config_request : Text → HttpRequest
key_config_request url = record {
  method = codes "GET";
  url = url;
  header =
      set_header (codes "User-Agent") (codes "ohttp-relay")
        (set_header (codes "Accept") (codes "application/ohttp-keys") []);
  body = [];
}

-- from the answer of the client on; the error of reading the body is dropped
unfoldable pub key_config_answer : DoResult → Result Bytes
key_config_answer (failed e r) = err e
key_config_answer (responded r) =
    if not (r.status_code == 200)
    then err (message (codes "unexpected status %d") (number r.status_code end))
    else ok r.body

-- from the URL of the gateway on
unfoldable pub fetch_key_config : Text → Exec (Result Bytes)
unfolding key_config_answer
fetch_key_config gateway_url = do
  invalid ← ask (λ env t. env.new_request_error (codes "GET") gateway_url)
  elim invalid [
    | some e ↦ pure (err e)
    | none ↦ do
      rsp ←
          perform (http_do (key_config_request gateway_url))
            (λ env t. env.client_do t (key_config_request gateway_url))
      pure (key_config_answer rsp)
  ]

unfoldable pub key_config_from : Text → Result Text → Exec (Result Bytes)
unfolding is_empty fetch_key_config
key_config_from host (err e) =
    pure (err (message (codes "get gateway url for host %q: %w") (text host (wrapped e end))))
key_config_from host (ok target_url) =
    if is_empty target_url
    then pure (err (message (codes "no gateway url for host %q") (text host end)))
    else fetch_key_config (target_url ++ ohttp_configs_path)

unfoldable pub http_key_config_source : UrlSource → KeyConfigSource
unfolding key_config_from
http_key_config_source gw_source host = do r ← gw_source host; key_config_from host r

module _ ⦃u : Unicode⦄ where
  -- RedisGatewaySource.TargetURL; the deadline of the call is the client's
  unfoldable pub redis_target_url : UrlSource
  unfolding hget_answer
  redis_target_url host = do
    let h = to_lower (trim_space host)
    r ← perform (redis_hget h (codes "url")) (λ env t. env.hget t h (codes "url"))
    pure (hget_answer r)
