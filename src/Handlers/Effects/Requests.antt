-- ===== src/Handlers/Effects/Requests.antt =====
-- What the handler does for one message stays in a set of traces that composes.
use ohttp_relay.Prelude.{
  ℕ, ◌/◌, ◌≡◌, refl, inl, inr, Bool-cases, not, ◌||◌, Option, none, some, [], ◌∷◌, ℤ, arith, All,
  ◌==◌, if◌then◌else◌, int64, length,
}
use ohttp_relay.Text.{Text, Bytes, Unicode, is_empty, text_eq, codes, to_lower}
use ohttp_relay.Fault.{Args, Error, Result, ok, err, is, no_gateway}
use ohttp_relay.Http.{HttpResponse}
use ohttp_relay.Envoy.{HttpHeaders, ProcessingResponse}
use ohttp_relay.Exec.{Effect, Trace, Env, pure, ◌>>=◌, ◌>>◌}
use ohttp_relay.Exec.Does.{
  Composes, Adds, Adds-pure, Adds-emit, Adds-if, Adds-bind, Does, Any, Does-pure, Does-emit,
  Does-bind,
}
use ohttp_relay.Metrics.{record_traffic_io}
use ohttp_relay.Traffic.{TrafficMetrics}
use ohttp_relay.Gateway.{ohttp_configs_path}
use ohttp_relay.Gateway.Effects.{FromKeyConfig}
use ohttp_relay.Relay.Effects.{FromClient}
use ohttp_relay.Handlers.Response.{
  content_type_ohttp_req, content_type_ohttp_res, content_type_ohttp_keys, immediate_error_response,
  ok_response, extract_header_value,
}
use ohttp_relay.Handlers.Server.{
  Server, StreamState, reply, record_host_traffic, accept_response, finish_forward,
  finish_key_config, is_foreign, forward_and_respond, respond_key_config, capture, check_request,
  on_request_headers,
}
use ohttp_relay.Handlers.Effects.{IsGood, IsForwardable, PermitsTo, Within, Sendable}

forwarded_type-IsForwardable :
    ⦃u : Unicode⦄ (t : Text) → IsForwardable (if is_foreign t then t else content_type_ohttp_req)
forwarded_type-IsForwardable t = elim (Bool-cases (is_foreign t)) [
  | inl foreign ↦ rw foreign (inr foreign)
  | inr own ↦ rw own (inl refl)
]

module _ ⦃u : Unicode⦄ {env : Env} {P : Effect → Type 0} {R : ProcessingResponse → Type 0}
    {I : StreamState → Type 0} {C : Bytes → Type 0} {s : Server} (p : PermitsTo env P R I C s) where
  record_host_traffic-Does :
      (host : Text) (a b : ℤ) → Does env P Any (record_host_traffic s.traffic_metrics host a b)
  record_host_traffic-Does host a b = go s.traffic_metrics refl
    where
      go :
          (m : Option TrafficMetrics)
          → s.traffic_metrics ≡ m
          → Does env P Any (record_host_traffic m host a b)
      go none e = unfold record_host_traffic in Does-pure _ tt
      go (some m) e =
          unfold record_host_traffic in
          Does-bind {Q = Any} (p.records m host a b e) (λ _ _. Does-pure _ tt)

  traffic_of :
      (host : Text) (a b : ℤ)
      → Does env P Any
          (record_traffic_io host a b >> record_host_traffic s.traffic_metrics host a b)
  unfolding record_traffic_io
  traffic_of host a b =
      Does-bind {Q = Any}
        (Does-bind {Q = Any} (Does-emit _ (p.bytes_in _ _)) (λ _ _. Does-emit _ (p.bytes_out _ _)))
        (λ _ _. record_host_traffic-Does host a b)

  -- A set of effects gives a set of traces.
  pub Permits-Within : Within env (λ t. All P) R I C s
  Permits-Within = record {
    traffic = traffic_of;
    errors = λ m a t. (p.errors m a, tt);
    logged = λ code f a t. (p.logged code f a, tt);
    error_sent = p.error_sent;
    opaque_sent = p.opaque_sent;
    keys_sent = p.keys_sent;
    captured = p.captured;
    configured = p.configured;
    cleared = p.cleared;
    appended = p.appended;
    relays = p.relays;
    configs = p.configs;
  }

module _ ⦃u : Unicode⦄ {env : Env} {M : Trace → Trace → Type 0} ⦃composes : Composes M⦄
    {R : ProcessingResponse → Type 0} {I : StreamState → Type 0} {C : Bytes → Type 0} {s : Server}
    (p : Within env M R I C s) where
  pub immediate_error_response-Adds :
      (code : ℕ) (f : Text) (a : Args) → Adds env M (All R) (immediate_error_response code f a)
  unfolding immediate_error_response
  immediate_error_response-Adds code f a =
      Adds-bind {Q = Any} (Adds-emit _ (p.logged code f a))
        (λ _ _. Adds-pure _ (p.error_sent code, tt))

  reply-Adds : (code : ℕ) (f : Text) (a : Args) → Adds env M (Sendable R) (reply code f a)
  reply-Adds code f a = Adds-bind (immediate_error_response-Adds code f a) (λ rs q. Adds-pure _ q)

  accept_response-eq :
      (st : StreamState) (resp_bytes : Bytes)
      → accept_response s st resp_bytes ≡ (
          record_traffic_io st.host (int64 (length st.body)) (int64 (length resp_bytes))
          >> record_host_traffic s.traffic_metrics st.host
              (int64 (length st.body))
              (int64 (length resp_bytes))
          >>= λ _. pure (ok (ok_response content_type_ohttp_res resp_bytes ∷ [])))
  unfolding accept_response ◌>>=◌
  accept_response-eq st resp_bytes = refl

  accept_response-Adds :
      (st : StreamState) (resp : HttpResponse)
      → IsGood env resp
      → Adds env M (Sendable R) (accept_response s st resp.body)
  accept_response-Adds st resp good = rw (accept_response-eq st resp.body) (
      Adds-bind {Q = Any} (p.traffic st.host _ _)
        (λ _ _. Adds-pure _ (p.opaque_sent resp good, tt)))

  finish_forward-Adds :
      (st : StreamState) (r : Result HttpResponse)
      → FromClient env r
      → Adds env M (Sendable R) (finish_forward s st r)
  unfolding finish_forward
  finish_forward-Adds st (err e) q =
      Adds-if (is no_gateway e) (λ _. reply-Adds _ _ _) (λ _. reply-Adds _ _ _)
  finish_forward-Adds st (ok resp) q = go resp.read_error refl
    where
      go :
          (o : Option Error)
          → resp.read_error ≡ o
          → Adds env M (Sendable R) (finish_forward s st (ok resp))
      go (some e) h = rw (h, finish_forward) (reply-Adds _ _ _)
      go none h =
          rw (h, finish_forward)
            (Adds-if (not (resp.status_code / 100 == 2)) (λ _. reply-Adds _ _ _)
              λ c.
                accept_response-Adds st resp
                  (record { answered = q; complete = h; success = ground arith }))

  pub forward_and_respond-Adds :
      (st : StreamState) → I st → Adds env M (Sendable R) (forward_and_respond s st)
  unfolding forward_and_respond
  forward_and_respond-Adds st i =
      Adds-if st.config_request (λ _. Adds-pure _ tt)
        λ _.
          Adds-bind (p.relays st _ i (forwarded_type-IsForwardable st.req_content_type))
            (λ r q. finish_forward-Adds st r q)

  finish_key_config-Adds :
      (r : Result Bytes) → FromKeyConfig env r → Adds env M (Sendable R) (finish_key_config r)
  unfolding finish_key_config
  finish_key_config-Adds (err e) q = reply-Adds _ _ _
  finish_key_config-Adds (ok b) q = Adds-pure _ (p.keys_sent b q, tt)

  respond_key_config-Adds :
      (h : Option HttpHeaders) (st : StreamState)
      → Adds env M (Sendable R) (respond_key_config s h st)
  unfolding respond_key_config
  respond_key_config-Adds h st =
      Adds-if (not (text_eq st.http_method (codes "get"))) (λ _. reply-Adds _ _ _)
        λ _.
          Adds-if
            (not (
              text_eq (to_lower (extract_header_value h (codes "accept"))) content_type_ohttp_keys))
            (λ _. reply-Adds _ _ _)
            (λ _. Adds-bind (p.configs st.host) (λ r q. finish_key_config-Adds r q))

  check_request-Adds :
      (h : Option HttpHeaders) (st : StreamState) → Adds env M (Sendable R) (check_request h st)
  unfolding check_request
  check_request-Adds h st =
      let content_len = extract_header_value h (codes "content-length") in
      Adds-if (not (text_eq st.http_method (codes "post"))) (λ _. reply-Adds _ _ _)
        λ _.
          Adds-if (is_foreign st.req_content_type) (λ _. reply-Adds _ _ _)
            λ _.
              Adds-if (is_empty content_len || text_eq content_len (codes "0"))
                (λ _. reply-Adds _ _ _) (λ _. Adds-pure _ tt)

  pub on_request_headers-Adds :
      (h : Option HttpHeaders) (old : StreamState)
      → I old
      → Adds env M (λ r. Sendable R r.0 × I r.1) (on_request_headers s h old)
  unfolding on_request_headers
  on_request_headers-Adds h old i =
      Adds-if (text_eq (extract_header_value h (codes ":path")) ohttp_configs_path)
        (λ _.
          Adds-bind (respond_key_config-Adds h (capture h old))
            (λ r q. Adds-pure _ (q, p.configured _ (p.captured h old i))))
        (λ _.
          Adds-bind (check_request-Adds h (capture h old))
            (λ r q. Adds-pure _ (q, p.captured h old i)))
