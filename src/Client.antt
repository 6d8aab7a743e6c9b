-- ===== src/Client.antt =====
-- cmd/test-client/main.go: where the test client gets its key configuration, and its transport. The
-- transport of package ohttp is a parameter, with `R` for its requests and `A` for its answers.
pub mod Laws
pub mod Verdict
pub mod Main
pub mod EndToEnd
use ohttp_relay.Prelude.{
  ℕ, Bool, true, false, not, ◌&&◌, Option, none, some, List, [], ◌∷◌, if◌then◌else◌,
}
use ohttp_relay.Text.{Text, Bytes, codes, is_empty}
use ohttp_relay.Fault.{Error, message, end, wrapped, Result, ok, err, bind}
use ohttp_relay.Http.{HttpRequest, HttpResponse, DoResult, responded, failed, set_header}
use ohttp_relay.Exec.{Env, http_do, Exec, pure, perform, ◌>>=◌}
use ohttp_relay.Keys.{KeyConfig, Libraries, unmarshal_key_config}
use ohttp_relay.Keys.Files.{System, Disk, wrap, read_file}

abbrev pub default_gateway_url : Text
default_gateway_url = codes "http://localhost:8888"

-- readKeyConfigFile
unfoldable pub read_key_config_file :
    {K S : Type 0} → Libraries K → System S → Text → Disk → Result (KeyConfig K)
read_key_config_file lib sys name disk =
    bind (wrap (codes "read file: %w") (read_file sys name disk))
      (λ content. wrap (codes "unmarshal binary: %w") (unmarshal_key_config lib content))

-- where `main` gets the key configuration: a file, or the server of a URL
pub data Source : Type 0 where
  from_file : Text → Source
  from_server : Text → Source

-- `main`, lines 41 to 61; an error ends the program
unfoldable pub key_source : Text → Text → Result Source
unfolding is_empty
key_source key_config_path gateway_url =
    if not (is_empty key_config_path) && not (is_empty gateway_url)
    then err (message (codes "both keyconfig and gateway configured") end)
    else if not (is_empty key_config_path)
    then ok (from_file key_config_path)
    else ok (from_server (if is_empty gateway_url then default_gateway_url else gateway_url))

-- Encapsulate and Decapsulate of package ohttp; `X` is the decapsulator of one request
pub record Codec (R A X : Type 0) : Type 0 where
  pub encapsulate : R → Result (HttpRequest × X)
  pub decapsulate : X → HttpResponse → Result A

abbrev pub header_key_outer : Text
header_key_outer = codes "X-Outer-Test-Header"

-- the request that RoundTrip sends
abbrev pub outer_request : HttpRequest → HttpRequest
outer_request req = record req {
  header = set_header header_key_outer (codes "custom-value") req.header;
}

module _ {R A X : Type 0} (codec : Codec R A X) where
  -- from the answer of the client on
  unfoldable pub decapsulate_answer : X → DoResult → Result A
  decapsulate_answer rd (failed e r) = err (message (codes "outer: request: %w") (wrapped e end))
  decapsulate_answer rd (responded resp) =
      wrap (codes "outer: decapsulate response: %w") (codec.decapsulate rd resp)

  -- RoundTrip of outerHeaderTransport
  unfoldable pub round_trip : R → Exec (Result A)
  unfolding decapsulate_answer
  round_trip req = elim (codec.encapsulate req) [
    | err e ↦ pure (err (message (codes "outer: encapsulate request: %w") (wrapped e end)))
    | ok (encapsulated, rd) ↦ do
      answer ←
          perform (http_do (outer_request encapsulated))
            (λ env t. env.client_do t (outer_request encapsulated))
      pure (decapsulate_answer rd answer)
  ]
