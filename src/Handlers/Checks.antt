-- ===== src/Handlers/Checks.antt =====
-- server.go: which request headers Process lets through, and what it answers to the others.
use ohttp_relay.Prelude.{
  ℕ, ◌≡◌, ◌≢◌, ◌↔◌, ◌⊎◌, inl, inr, refl, ap, sym, ◌∙◌, true, false, Option, some, [], ◌∷◌, arith,
  Bool-cases, String,
}
use ohttp_relay.Text.{Text, Bytes, codes, Unicode, text_eq, is_empty, equal_fold}
use ohttp_relay.Text.Laws.{text_eq_iff, is_empty_iff}
use ohttp_relay.Fault.{Result, ok, err, Args, end, message}
use ohttp_relay.Envoy.{
  StatusCode, HttpHeaders, internal_server_error, ProcessingResponse, immediate_response,
}
use ohttp_relay.Exec.{Env, Trace, ◌>>=◌}
use ohttp_relay.Gateway.{ohttp_configs_path}
use ohttp_relay.Handlers.Response.{
  content_type_ohttp_req, content_type_header, error_response, immediate_error_response,
  extract_header_value, envoy_status, client_message, status_text,
}
use ohttp_relay.Handlers.Server.{
  Server, StreamState, Responses, reply, finish_key_config, is_foreign, respond_key_config,
  lower_header, capture, check_request, forward_and_respond, on_request_headers,
}

-- a plain text response
abbrev pub plain : StatusCode → String → ProcessingResponse
plain status_code message_text = immediate_response (record {
  status = some status_code;
  set_headers = content_type_header (codes "text/plain");
  body = codes message_text;
})

-- The codes 415 and 411 are not in the switch.
error_response-415 : error_response 415 ≡ plain internal_server_error "Unsupported Media Type"
unfolding error_response envoy_status client_message status_text is_empty
error_response-415 = refl

error_response-411 : error_response 411 ≡ plain internal_server_error "Length Required"
unfolding error_response envoy_status client_message status_text is_empty
error_response-411 = refl

module _ ⦃u : Unicode⦄ where
  -- What the checks demand of the headers of a request that is to be forwarded.
  pub record Passes (h : Option HttpHeaders) : Type 0 where
    pub path : extract_header_value h (codes ":path") ≢ ohttp_configs_path
    pub post : lower_header h (codes ":method") (codes "method") ≡ codes "post"
    pub content_type :
        (extract_header_value h (codes "content-type") ≡ [])
        ⊎ (equal_fold (extract_header_value h (codes "content-type")) content_type_ohttp_req ≡ true)
    pub length_given : extract_header_value h (codes "content-length") ≢ []
    pub length_ne_zero : extract_header_value h (codes "content-length") ≢ codes "0"

  reply-ne :
      (code : ℕ) (f : Text) (a : Args) (env : Env) (t : Trace) → (reply code f a env t).0 ≢ ok []
  unfolding immediate_error_response ◌>>=◌
  reply-ne code f a env t = cc

  finish_key_config-ne :
      (r : Result Bytes) (env : Env) (t : Trace) → (finish_key_config r env t).0 ≢ ok []
  unfolding finish_key_config ◌>>=◌ immediate_error_response
  finish_key_config-ne (ok b) env t = cc
  finish_key_config-ne (err e) env t = cc

  respond_key_config-ne :
      (s : Server) (h : Option HttpHeaders) (st : StreamState) (env : Env) (t : Trace)
      → (respond_key_config s h st env t).0 ≢ ok []
  unfolding respond_key_config ◌>>=◌ immediate_error_response
  respond_key_config-ne s h st env t = ground (
    arith,
    finish_key_config-ne (s.key_config_source st.host env t).0 env
        (s.key_config_source st.host env t).1,
  )

  pub is_foreign_iff :
      (c : Text)
      → (is_foreign c ≡ false) ↔ ((c ≡ []) ⊎ (equal_fold c content_type_ohttp_req ≡ true))
  unfolding is_foreign
  is_foreign_iff c = ground (arith, is_empty_iff c)

  check_request_iff :
      (h : Option HttpHeaders) (st : StreamState) (env : Env) (t : Trace)
      → ((check_request h st env t).0 ≡ ok []) ↔ (
          (st.http_method ≡ codes "post")
          × (is_foreign st.req_content_type ≡ false)
          × (extract_header_value h (codes "content-length") ≢ [])
          × (extract_header_value h (codes "content-length") ≢ codes "0"))
  unfolding check_request ◌>>=◌ immediate_error_response
  check_request_iff h st env t = ground (
    arith,
    text_eq_iff st.http_method (codes "post"),
    is_empty_iff (extract_header_value h (codes "content-length")),
    text_eq_iff (extract_header_value h (codes "content-length")) (codes "0"),
  )

  check_request-foreign :
      (h : Option HttpHeaders) (st : StreamState) (env : Env) (t : Trace)
      → st.http_method ≡ codes "post"
      → is_foreign st.req_content_type ≡ true
      → (check_request h st env t).0 ≡ ok (error_response 415 ∷ [])
  unfolding check_request ◌>>=◌ immediate_error_response
  check_request-foreign h st env t post foreign =
      ground (arith, text_eq_iff st.http_method (codes "post"))

  check_request-no_length :
      (h : Option HttpHeaders) (st : StreamState) (env : Env) (t : Trace)
      → st.http_method ≡ codes "post"
      → is_foreign st.req_content_type ≡ false
      → extract_header_value h (codes "content-length") ≡ []
      → (check_request h st env t).0 ≡ ok (error_response 411 ∷ [])
  unfolding check_request ◌>>=◌ immediate_error_response
  check_request-no_length h st env t post foreign missing = ground (
    arith,
    text_eq_iff st.http_method (codes "post"),
    is_empty_iff (extract_header_value h (codes "content-length")),
  )

  module _ (s : Server) (h : Option HttpHeaders) (old : StreamState) (env : Env) (t : Trace) where
    -- The result of the headers for a request that is not for the key configuration.
    forwarded-eq :
        extract_header_value h (codes ":path") ≢ ohttp_configs_path
        → (on_request_headers s h old env t).0
          ≡ ((check_request h (capture h old) env t).0, capture h old)
    unfolding on_request_headers ◌>>=◌
    forwarded-eq ne =
        ground (arith, text_eq_iff (extract_header_value h (codes ":path")) ohttp_configs_path)

    config-eq :
        extract_header_value h (codes ":path") ≡ ohttp_configs_path
        → (on_request_headers s h old env t).0 ≡ (
          (respond_key_config s h (capture h old) env t).0,
          record (capture h old) { config_request = true },
        )
    unfolding on_request_headers ◌>>=◌
    config-eq e =
        ground (arith, text_eq_iff (extract_header_value h (codes ":path")) ohttp_configs_path)

    Passes-of_ok : (on_request_headers s h old env t).0.0 ≡ ok [] → Passes h
    Passes-of_ok e =
        elim (Bool-cases (text_eq (extract_header_value h (codes ":path")) ohttp_configs_path)) [
          | inl yes_path ↦ absurd (
              respond_key_config-ne s h (capture h old) env t (
                sym (
                  ap (λ (r : Result Responses × StreamState). r.0)
                    (config-eq ((text_eq_iff _ _).0 yes_path)))
                ∙ e))
          | inr no_path ↦
              let ne : extract_header_value h (codes ":path") ≢ ohttp_configs_path = λ q. ground (
                arith,
                (text_eq_iff (extract_header_value h (codes ":path")) ohttp_configs_path).1 q,
              ) in
              let (post, foreign, given, ne_zero) =
                (check_request_iff h (capture h old) env t).0
                  (sym (ap (λ (r : Result Responses × StreamState). r.0) (forwarded-eq ne)) ∙ e) in
              record {
                path = ne;
                post = unfold capture in post;
                content_type = (is_foreign_iff _).0 (unfold capture in foreign);
                length_given = given;
                length_ne_zero = ne_zero;
              }
        ]

    ok_of_Passes : Passes h → (on_request_headers s h old env t).0.0 ≡ ok []
    ok_of_Passes p =
        ap (λ (r : Result Responses × StreamState). r.0) (forwarded-eq p.path)
        ∙ (check_request_iff h (capture h old) env t).1 (
          unfold capture in p.post,
          (is_foreign_iff _).1 (unfold capture in p.content_type),
          p.length_given,
          p.length_ne_zero,
        )

    -- The headers are let through, with no response, exactly when they pass every check.
    pub on_request_headers_iff : ((on_request_headers s h old env t).0.0 ≡ ok []) ↔ Passes h
    on_request_headers_iff = (Passes-of_ok, ok_of_Passes)

    -- A POST for another path than that of the key configuration, with a foreign content type, or
    -- with no foreign one and no content length, is answered with the text of 415 or 411, but with
    -- the status 500.
    pub rejected_with_500 :
        extract_header_value h (codes ":path") ≢ ohttp_configs_path
        → lower_header h (codes ":method") (codes "method") ≡ codes "post"
        → (is_foreign (extract_header_value h (codes "content-type")) ≡ true
            → (on_request_headers s h old env t).0.0
              ≡ ok (plain internal_server_error "Unsupported Media Type" ∷ []))
          × (is_foreign (extract_header_value h (codes "content-type")) ≡ false
              → extract_header_value h (codes "content-length") ≡ []
              → (on_request_headers s h old env t).0.0
                ≡ ok (plain internal_server_error "Length Required" ∷ []))
    unfolding capture
    rejected_with_500 ne post = (
      λ foreign.
          ap (λ (r : Result Responses × StreamState). r.0) (forwarded-eq ne)
          ∙ rw (check_request-foreign h (capture h old) env t post foreign, error_response-415),
      λ own missing.
          ap (λ (r : Result Responses × StreamState). r.0) (forwarded-eq ne)
          ∙ rw (
            check_request-no_length h (capture h old) env t post own missing,
            error_response-411,
          ),
    )

    -- A body that follows the headers of a key configuration request is not forwarded: it is
    -- refused with an error, and nothing is done.
    config_body_refused :
        (env' : Env) (t' : Trace)
        → extract_header_value h (codes ":path") ≡ ohttp_configs_path
        → forward_and_respond s (on_request_headers s h old env t).0.1 env' t'
          ≡ (err (message (codes "config request not allowed") end), t')
    unfolding forward_and_respond ◌>>=◌
    config_body_refused env' t' e =
        rw (ap (λ (r : Result Responses × StreamState). r.1) (config-eq e)) refl
