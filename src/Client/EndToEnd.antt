-- ===== src/Client/EndToEnd.antt =====
-- The test client, the relay and the echo gateway together: what the test of the client detects.
-- Package ohttp, which carries the inner request to the handler and the answer back, and the json
-- coder are libraries.
use ohttp_relay.Prelude.{
  sym, Option-cases, ◌≡◌, ◌≢◌, refl, ap, ◌∙◌, none, some, [], ◌∷◌, arith, inl, inr,
}
use ohttp_relay.Text.{Text, Bytes, codes, text_eq}
use ohttp_relay.Text.Laws.{text_eq_refl}
use ohttp_relay.Fault.{Result, ok}
use ohttp_relay.Http.{Header, HttpRequest, set_header}
use ohttp_relay.Relay.{relay_header, relay_request}
use ohttp_relay.Echo.{
  Writer, new_writer, Request, Echo, echo_of, echo_handler, write, write_header,
  outer_headers_from_context,
}
use ohttp_relay.Echo.Laws.{echo_handler-eq}
use ohttp_relay.Client.{header_key_outer, outer_request}
use ohttp_relay.Client.Verdict.{
  header_key_inner, inner_header_payload, lookup, Payload, Verdict, fails, passes, check_answer,
  judge, has,
}

lookup-set_header : (key v : Text) (h : Header) → lookup key (set_header key v h) ≡ some v
unfolding lookup set_header
lookup-set_header key v [] = rw (text_eq_refl key)
lookup-set_header key v ((k, x) ∷ h) = ground (arith, text_eq_refl key, lookup-set_header key v h)

lookup-relay_header :
    (content_type : Text) → lookup header_key_outer (relay_header content_type) ≡ none
unfolding relay_header lookup set_header text_eq
lookup-relay_header content_type = ground arith

relay_header-full : (content_type : Text) → relay_header content_type ≢ []
unfolding relay_header set_header
relay_header-full content_type empty = ground arith

-- the verdict on what the handler of the echo gateway answers
abbrev pub verdict : (Echo → Result Bytes) → (Bytes → Result Payload) → Request → Verdict
verdict encode decode r =
    let w : Writer = echo_handler encode r new_writer in judge decode w.header w.body

lookup-full : (key v : Text) (h : Header) → lookup key h ≡ some v → h ≢ []
unfolding lookup
lookup-full key v h found empty = absurd (cc (sym (ap (lookup key) empty) ∙ found))

abbrev json_header : Header
json_header = (codes "Content-Type", codes "application/json") ∷ []

check_answer-eq :
    (h o : Header)
    → lookup header_key_inner h ≡ some inner_header_payload
    → check_answer (record { headers = some h; outer_headers = some o }) json_header
      ≡ (elim (lookup header_key_outer o) [ none ↦ passes | some v ↦ fails ])
unfolding check_answer
check_answer-eq h o pinged = elim (Option-cases (lookup header_key_outer o)) [
  | inl absent ↦ rw (pinged, has, absent) (unfold lookup in unfold text_eq in refl)
  | inr (v, there) ↦ rw (pinged, has, there) (unfold text_eq in refl)
]

-- The json coder reads an echo with headers of both kinds back.
abbrev pub ReadsBack : (Echo → Result Bytes) → (Bytes → Result Payload) → Type 0
ReadsBack encode decode =
    (e : Echo)
    → e.headers ≢ []
    → e.outer_headers ≢ []
    → (bytes : Bytes) × (encode e ≡ ok bytes)
      × (decode bytes
          ≡ ok (record { headers = some e.headers; outer_headers = some e.outer_headers }))

module _ (encode : Echo → Result Bytes) (decode : Bytes → Result Payload)
    (reads : ReadsBack encode decode) (r : Request) (body : Bytes) (readable : r.body ≡ ok body)
    (pinged : lookup header_key_inner r.header ≡ some inner_header_payload) where
  judged :
      (outer : Header)
      → outer ≢ []
      → verdict encode decode (record r { outer = some outer })
        ≡ (elim (lookup header_key_outer outer) [ none ↦ passes | some v ↦ fails ])
  unfolding judge set_header write write_header echo_of outer_headers_from_context
  judged outer full =
      let r' : Request = record r { outer = some outer } in
      let (bytes, encoded, decoded) = reads (echo_of r' body) (lookup-full _ _ _ pinged) full in
      ap (λ (w : Writer). judge decode w.header w.body)
        (echo_handler-eq encode r' new_writer readable encoded)
      ∙ rw (judge, decoded) (check_answer-eq r.header outer pinged)

  -- If the json coder reads back what it writes, a request with the test header and a readable body passes the test of the client if it has come
  -- through the relay, so that its outer headers are those of the relay's request, and it fails the
  -- test if the client has sent it straight to the gateway.
  pub relayed_test :
      (url content_type method : Text) (sealed : Bytes) (out : HttpRequest)
      → (verdict encode decode
            (record r { outer = some (relay_request url sealed content_type method).header })
          ≡ passes)
        × (verdict encode decode (record r { outer = some (outer_request out).header }) ≡ fails)
  unfolding relay_request
  relayed_test url content_type method sealed out =
      let kept = lookup-set_header header_key_outer (codes "custom-value") out.header in
      (
        judged (relay_header content_type) (relay_header-full content_type)
            ∙ rw (lookup-relay_header content_type),
        judged (outer_request out).header (lookup-full _ _ _ kept) ∙ rw kept,
      )
