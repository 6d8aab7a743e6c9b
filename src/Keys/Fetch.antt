-- ===== src/Keys/Fetch.antt =====
-- cmd/test-client/main.go: fetchKeyConfig, the discovery of the key configuration of a relay or a
-- gateway. `K` is ohttp.KeyConfig, and its UnmarshalBinary is a parameter.
use ohttp_relay.Prelude.{◌≡◌, ◌≢◌, none, some, [], ◌∷◌, ◌++◌, ◌==◌, not, if◌then◌else◌}
use ohttp_relay.Text.{Text, Bytes, codes, is_empty}
use ohttp_relay.Text.Laws.{is_empty_ne}
use ohttp_relay.Fault.{message, end, text, number, wrapped, Result, ok, err, bind}
use ohttp_relay.Http.{HttpRequest, HttpResponse, DoResult, responded, failed, set_header}
use ohttp_relay.Exec.{Env, Trace, http_do, Exec, pure, ask, perform, ◌>>=◌}
use ohttp_relay.Gateway.{ohttp_configs_path}
use ohttp_relay.Keys.Frame.{frame, unframe, unframe-frame}

-- one slash at the end is removed
unfoldable pub strip_slash : Text → Text
strip_slash [] = []
strip_slash (c ∷ []) = if c == b'/' then [] else c ∷ []
strip_slash (c ∷ d ∷ s) = c ∷ strip_slash (d ∷ s)

abbrev pub discovery_request : Text → HttpRequest
discovery_request url = record {
  method = codes "GET";
  url = url;
  header = set_header (codes "Accept") (codes "application/ohttp-keys") [];
  body = [];
}

module _ {K : Type 0} (unmarshal_binary : Bytes → Result K) where
  abbrev parsed : Result K → Result K
  parsed (ok kc) = ok kc
  parsed (err e) = err (message (codes "parse key config: %w") (wrapped e end))

  -- from the answer of the client on
  unfoldable pub discovery_answer : Text → DoResult → Result K
  discovery_answer url (failed e r) = err (message (codes "get %s: %w") (text url (wrapped e end)))
  discovery_answer url (responded resp) =
      if not (resp.status_code == 200)
      then err (message (codes "unexpected status %d") (number resp.status_code end))
      else elim resp.read_error [
        | some e ↦ err (message (codes "read body: %w") (wrapped e end))
        | none ↦ bind (unframe resp.body) (λ bytes. parsed (unmarshal_binary bytes))
      ]

  -- fetchKeyConfig
  unfoldable pub fetch_key_config : Text → Exec (Result K)
  unfolding strip_slash is_empty
  fetch_key_config base =
      if is_empty base
      then pure (err (message (codes "empty base url") end))
      else let url = strip_slash base ++ ohttp_configs_path in
        do
          invalid ← ask (λ env t. env.new_request_error (codes "GET") url)
          elim invalid [
            | some e ↦ pure (err (message (codes "create request: %w") (wrapped e end)))
            | none ↦ do
              answer ←
                  perform (http_do (discovery_request url))
                    (λ env t. env.client_do t (discovery_request url))
              pure (discovery_answer url answer)
          ]

  -- If a request can be made for a base that is not empty, and is answered with status 200 and a
  -- complete body, the framed bytes of a key configuration, and the library reads these bytes as
  -- that configuration, then fetchKeyConfig returns it, and this request is its only effect.
  pub fetch_key_config-frame :
      (base : Text) (config_bytes : Bytes) (kc : K) (resp : HttpResponse) (env : Env) (t : Trace)
      → base ≢ []
      → env.new_request_error (codes "GET") (strip_slash base ++ ohttp_configs_path) ≡ none
      → env.client_do t (discovery_request (strip_slash base ++ ohttp_configs_path))
        ≡ responded resp
      → resp.status_code ≡ 200
      → resp.read_error ≡ none
      → resp.body ≡ frame config_bytes
      → unmarshal_binary config_bytes ≡ ok kc
      → fetch_key_config base env t
        ≡ (ok kc, t ++ http_do (discovery_request (strip_slash base ++ ohttp_configs_path)) ∷ [])
  unfolding ◌>>=◌ discovery_answer fetch_key_config
  fetch_key_config-frame base config_bytes kc resp env t full valid answer status complete body
        read =
      rw (
        fetch_key_config,
        is_empty_ne base full,
        valid,
        answer,
        discovery_answer,
        status,
        complete,
        body,
        unframe-frame config_bytes,
        read,
      )
