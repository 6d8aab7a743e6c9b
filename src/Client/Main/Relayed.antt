-- ===== src/Client/Main/Relayed.antt =====
-- The test client, the relay and the echo gateway together: how `main` of the client ends, with the
-- relay and without it.
use ohttp_relay.Prelude.{
  Bool, true, false, if◌then◌else◌, ◌≡◌, refl, ap, ◌∙◌, none, some, [], ◌∷◌, ◌++◌,
}
use ohttp_relay.Text.{Text, Bytes, codes}
use ohttp_relay.Fault.{Result, ok}
use ohttp_relay.Http.{Header, HttpRequest, HttpResponse, responded}
use ohttp_relay.Exec.{Env, Trace, Exec, http_do, ◌>>=◌}
use ohttp_relay.Keys.{KeyConfig, Libraries}
use ohttp_relay.Keys.Files.{System, Disk}
use ohttp_relay.Relay.{relay_request}
use ohttp_relay.Echo.{Request, Writer, new_writer, Echo, echo_handler}
use ohttp_relay.Client.{Codec, outer_request, round_trip, decapsulate_answer}
use ohttp_relay.Client.Verdict.{
  header_key_inner, inner_header_payload, lookup, Payload, Verdict, passes, fails, judge,
}
use ohttp_relay.Client.EndToEnd.{ReadsBack, verdict, relayed_test}
use ohttp_relay.Client.Main.{
  Settings, Kit, attempt, load_key_config, send_test, test_data, test_url, test_request,
  judge_answer, close, main,
}

-- Do of a client returns an answer of its transport that is no redirect, with no other request.
abbrev pub IsDirect : {K X : Type 0} → Kit K X → Type 0
IsDirect kit =
    (rt : HttpRequest → Exec (Result HttpResponse)) (req : HttpRequest) (env : Env) (t t' : Trace)
    (resp : HttpResponse)
    → rt req env t ≡ (ok resp, t')
    → resp.status_code ≡ 200
    → kit.client_do rt req env t ≡ (ok resp, t')

-- The body and the header of an answer are those that the handler of the gateway writes for the request
-- that it gets, with the headers of the outer request in its context.
abbrev pub Echoes : (Echo → Result Bytes) → Request → Header → HttpResponse → Type 0
Echoes encode inner outer answer =
    let w : Writer = echo_handler encode (record inner { outer = some outer }) new_writer in
    (answer.header ≡ w.header) × (answer.body ≡ w.body)

judged_as :
    {K X : Type 0} (kit : Kit K X) (encode : Echo → Result Bytes) (decode : Bytes → Result Payload)
    (inner : Request) (outer : Header) (answer : HttpResponse)
    → kit.decode answer ≡ decode answer.body
    → Echoes encode inner outer answer
    → judge kit.decode answer.header answer
      ≡ verdict encode decode (record inner { outer = some outer })
unfolding judge
judged_as kit encode decode inner outer answer read (same_header, same_body) =
    ap (λ (r : Result Payload). judge (λ (_ : Bytes). r) answer.header []) read ∙ λ i.
    judge decode (same_header i) (same_body i)

verdict_of :
    (f : Header → Verdict) (h o : Header) (relayed : Bool)
    → (f h ≡ passes) × (f o ≡ fails)
    → f (if relayed then h else o) ≡ (if relayed then passes else fails)
verdict_of f h o true (p, q) = p
verdict_of f h o false (p, q) = q

module _ {K S X : Type 0} (lib : Libraries K) (sys : System S) (kit : Kit K X) (disk : Disk)
    (settings : Settings) (env : Env) (t : Trace) where
  -- What the client finds: its key configuration, a codec, and a server that answers the request that
  -- it seals with `sealed`, which the codec opens as `answer`.
  pub record Answers (out : HttpRequest) (t' : Trace) (answer : HttpResponse) : Type 0 where
    pub key_config : KeyConfig K
    pub loaded : load_key_config lib sys kit disk settings env t ≡ (ok key_config, t')
    pub codec : Codec HttpRequest HttpResponse X
    pub made : kit.new_transport key_config settings.relay_url ≡ ok codec
    pub json_data : Bytes
    pub marshalled : kit.marshal test_data ≡ ok json_data
    pub valid : env.new_request_error (codes "POST") test_url ≡ none
    pub rd : X
    pub encapsulated : codec.encapsulate (test_request json_data) ≡ ok (out, rd)
    pub sealed : HttpResponse
    pub responds : env.client_do t' (outer_request out) ≡ responded sealed
    pub opened : codec.decapsulate rd sealed ≡ ok answer
    pub found : answer.status_code ≡ 200
    pub closed : kit.close_error answer ≡ none

  module _ (direct : IsDirect kit) (out : HttpRequest) (t' : Trace) (answer : HttpResponse)
      (a : Answers out t' answer) where
    tripped :
        round_trip (a.codec) (test_request (a.json_data)) env t'
        ≡ (ok answer, t' ++ http_do (outer_request out) ∷ [])
    unfolding round_trip decapsulate_answer ◌>>=◌
    tripped = rw (round_trip, a.encapsulated, a.responds, a.opened)

    sent :
        send_test kit settings.relay_url (a.key_config) env t'
        ≡ (ok answer, t' ++ http_do (outer_request out) ∷ [])
    unfolding send_test ◌>>=◌
    sent =
        rw (send_test, a.made, a.marshalled, a.valid) (direct _ _ env t' _ answer tripped (a.found))

    ended :
        main lib sys kit disk settings env t
        ≡ (judge kit.decode answer.header answer, t' ++ http_do (outer_request out) ∷ [])
    unfolding main judge_answer close ◌>>=◌
    ended =
        ap
          (λ (r : Result (KeyConfig K) × Trace).
            let (answered, u) = attempt r.0 (send_test kit settings.relay_url) env r.1 in
            (judge_answer kit answered, u))
          (a.loaded)
        ∙ ap (λ (r : Result HttpResponse × Trace). (judge_answer kit r.0, r.1)) sent
        ∙ rw (judge_answer, a.closed) refl

  -- If the json coder reads back what it writes and the request that the echo gateway opens has the test
  -- header and a readable body, then `main` of the client ends well if its request has come to the gateway
  -- as the relay makes it, and fails if it has come as the client makes it; either way it sends one
  -- request after it has its key configuration. The client gets the answer of the gateway, with status
  -- 200, and closes it without an error.
  pub main_relayed :
      IsDirect kit
      → (out : HttpRequest) (t' : Trace) (answer : HttpResponse) → Answers out t' answer
      → (encode : Echo → Result Bytes) (decode : Bytes → Result Payload) → ReadsBack encode decode
      → kit.decode answer ≡ decode answer.body
      → (inner : Request) (body : Bytes) → inner.body ≡ ok body
      → lookup header_key_inner inner.header ≡ some inner_header_payload
      → (url content_type method : Text) (sealed : Bytes) (relayed : Bool)
      → Echoes encode inner
          (if relayed
            then (relay_request url sealed content_type method).header
            else (outer_request out).header)
          answer
      → main lib sys kit disk settings env t
        ≡ (if relayed then passes else fails, t' ++ http_do (outer_request out) ∷ [])
  main_relayed direct out t' answer a encode decode reads read inner body readable pinged url
        content_type method sealed relayed echoes =
      let tests =
        relayed_test encode decode reads inner body readable pinged url content_type method sealed
          out in
      ended direct out t' answer a
      ∙ ap (λ (v : Verdict). (v, t' ++ http_do (outer_request out) ∷ []))
          (judged_as kit encode decode inner _ answer read echoes
            ∙ verdict_of (λ o. verdict encode decode (record inner { outer = some o })) _ _ relayed
                tests)
