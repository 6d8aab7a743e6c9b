-- ===== src/Client/Main.antt =====
-- cmd/test-client/main.go: `main`, from its flags to its exit. Log lines and what is printed are left
-- out.
pub mod Laws
pub mod Relayed
use ohttp_relay.Prelude.{Option, none, some, List, [], ◌∷◌}
use ohttp_relay.Text.{Text, Bytes, codes}
use ohttp_relay.Fault.{Error, Result, ok, err}
use ohttp_relay.Http.{HttpRequest, HttpResponse}
use ohttp_relay.Exec.{Env, Exec, pure, ask, ◌>>=◌}
use ohttp_relay.Keys.{KeyConfig, Libraries}
use ohttp_relay.Keys.Files.{System, Disk, env_or}
use ohttp_relay.Keys.Fetch.{fetch_key_config}
use ohttp_relay.Client.{
  Source, from_file, from_server, Codec, read_key_config_file, key_source, round_trip,
}
use ohttp_relay.Client.Verdict.{test_header, Payload, Verdict, panics, fails, passes, judge}

abbrev pub default_relay_url : Text
default_relay_url = codes "http://localhost:7777"

pub record Settings : Type 0 where
  pub key_config_path : Text
  pub relay_url : Text
  pub gateway_url : Text

-- `env_value` is os.LookupEnv, and `parse` gives the value of a flag after flag.Parse from its name
-- and its default.
unfoldable pub read_settings : (Text → Option Text) → (Text → Text → Text) → Settings
unfolding env_or
read_settings env_value parse = record {
  key_config_path = parse (codes "keyconfig") (env_or (env_value (codes "KEY_CONFIG_FILE")) []);
  relay_url = parse (codes "relay") (env_or (env_value (codes "RELAY_URL")) default_relay_url);
  gateway_url = parse (codes "gateway") (env_or (env_value (codes "GATEWAY_URL")) []);
}

abbrev pub test_data : List (Text × Text)
test_data = (codes "message", codes "Hello OHTTP!") ∷ []

abbrev pub test_url : Text
test_url = codes "http://ohttp.invalid"

abbrev pub test_request : Bytes → HttpRequest
test_request json_data = record {
  method = codes "POST";
  url = test_url;
  header = test_header;
  body = json_data;
}

-- What `main` calls: UnmarshalBinary of a key configuration, ohttp.NewTransport, the json coder, Do
-- of an http.Client with a transport, and Close of the body of an answer. `X` is a decapsulator.
pub record Kit (K X : Type 0) : Type 0 where
  pub unmarshal_binary : Bytes → Result (KeyConfig K)
  pub new_transport : KeyConfig K → Text → Result (Codec HttpRequest HttpResponse X)
  pub marshal : List (Text × Text) → Result Bytes
  pub client_do :
      (HttpRequest → Exec (Result HttpResponse)) → HttpRequest → Exec (Result HttpResponse)
  pub decode : HttpResponse → Result Payload
  pub close_error : HttpResponse → Option Error

-- what comes after a call, unless its error ends the program
abbrev pub attempt : {A B : Type 0} → Result A → (A → Exec (Result B)) → Exec (Result B)
attempt (ok a) f = f a
attempt (err e) f = pure (err e)

-- The deferred Close runs when `main` returns or panics, and its error ends with status 1.
unfoldable pub close : Option Error → Verdict → Verdict
close none v = v
close (some e) v = fails

-- from the answer of the client on
unfoldable pub judge_answer : {K X : Type 0} → Kit K X → Result HttpResponse → Verdict
unfolding close judge
judge_answer kit (err e) = fails
judge_answer kit (ok resp) = close (kit.close_error resp) (judge kit.decode resp.header resp)

-- from the transport to the answer of the client; the error of a step ends the program
unfoldable pub send_test :
    {K X : Type 0} → Kit K X → Text → KeyConfig K → Exec (Result HttpResponse)
unfolding round_trip
send_test kit relay_url key_config = attempt (kit.new_transport key_config relay_url) λ codec.
    attempt (kit.marshal test_data) λ json_data. do
      invalid ← ask (λ env t. env.new_request_error (codes "POST") test_url)
      elim invalid [
        | some e ↦ pure (err e)
        | none ↦ kit.client_do (round_trip codec) (test_request json_data)
      ]

module _ {K S X : Type 0} (lib : Libraries K) (sys : System S) (kit : Kit K X) (disk : Disk) where
  abbrev pub load_from : Source → Exec (Result (KeyConfig K))
  load_from (from_file name) = pure (read_key_config_file lib sys name disk)
  load_from (from_server url) = fetch_key_config kit.unmarshal_binary url

  -- lines 41 to 61
  unfoldable pub load_key_config : Settings → Exec (Result (KeyConfig K))
  unfolding key_source read_key_config_file fetch_key_config
  load_key_config settings =
      attempt (key_source settings.key_config_path settings.gateway_url) load_from

  unfoldable pub main : Settings → Exec Verdict
  unfolding load_key_config send_test judge_answer ◌>>=◌
  main settings = do
    loaded ← load_key_config settings
    answer ← attempt loaded (send_test kit settings.relay_url)
    pure (judge_answer kit answer)
