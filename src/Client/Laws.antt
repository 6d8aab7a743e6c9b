-- ===== src/Client/Laws.antt =====
-- main.go of the test client: its transport against a server that knows the codec.
use ohttp_relay.Prelude.{◌≡◌, ◌↔◌, refl, ap, ◌∙◌, [], ◌∷◌, ◌++◌}
use ohttp_relay.Fault.{ok}
use ohttp_relay.Http.{HttpRequest, HttpResponse, DoResult, responded, failed}
use ohttp_relay.Exec.{Env, Trace, http_do, ◌>>=◌}
use ohttp_relay.Keys.Files.{wrap}
use ohttp_relay.Keys.Generated.{wrap-eq-ok}
use ohttp_relay.Text.{codes}
use ohttp_relay.Client.{Codec, outer_request, decapsulate_answer, round_trip}

answer_iff :
    {R A X : Type 0} (codec : Codec R A X) (rd : X) (answer : DoResult) (a : A)
    → (decapsulate_answer codec rd answer ≡ ok a)
      ↔ ((resp : HttpResponse) × (answer ≡ responded resp) × (codec.decapsulate rd resp ≡ ok a))
unfolding decapsulate_answer
answer_iff codec rd (failed e r) a = ((λ h. absurd (cc h)), λ p. absurd (cc (p.1)))
answer_iff codec rd (responded resp) a = (
  (λ h. (resp, refl, wrap-eq-ok _ _ h)),
  λ p.
      let same : resp ≡ p.0 = cc (p.1) in
      ap
        (λ (r : HttpResponse).
          wrap (codes "outer: decapsulate response: %w") (codec.decapsulate rd r))
        same
      ∙ rw (p.2) refl,
)

module _ {R A X : Type 0} (codec : Codec R A X) (env : Env) (req : R) (t : Trace) where
  -- If the request can be encapsulated, RoundTrip sends exactly one request, the encapsulated one with
  -- its own outer header, and it returns an answer exactly if there is a response that is decapsulated
  -- to this answer.
  round_trip_lem :
      (out : HttpRequest) (rd : X)
      → codec.encapsulate req ≡ ok (out, rd)
      → ((round_trip codec req env t).1 ≡ t ++ http_do (outer_request out) ∷ [])
        × ((a : A)
            → ((round_trip codec req env t).0 ≡ ok a) ↔ (
                (resp : HttpResponse) × (env.client_do t (outer_request out) ≡ responded resp)
                × (codec.decapsulate rd resp ≡ ok a)))
  unfolding round_trip ◌>>=◌
  round_trip_lem out rd h = (
    rw (round_trip, h),
    λ a. rw (round_trip, h) (answer_iff codec rd (env.client_do t (outer_request out)) a),
  )
