-- ===== src/Client/Main/Laws.antt =====
-- main.go of the test client: when it ends well.
use ohttp_relay.Prelude.{
  ◌≡◌, ◌↔◌, Bool, true, false, not, ◌||◌, if◌then◌else◌, arith, refl, ap, ◌∙◌, Option, none, some,
  inl, inr, Option-cases,
}
use ohttp_relay.Text.{Text, codes}
use ohttp_relay.Text.Laws.{text_eq_iff}
use ohttp_relay.Fault.{Error, Result, ok, err}
use ohttp_relay.Http.{Header, HttpResponse}
use ohttp_relay.Exec.{Env, Trace, ◌>>=◌}
use ohttp_relay.Keys.{Libraries}
use ohttp_relay.Keys.Files.{System, Disk}
use ohttp_relay.Client.{header_key_outer}
use ohttp_relay.Client.Verdict.{
  header_key_inner, inner_header_payload, lookup, is_returned, Payload, passes, fails, check_answer,
  judge,
}
use ohttp_relay.Client.Main.{
  Settings, Kit, attempt, load_key_config, send_test, judge_answer, close, main,
}

-- an answer that proves the round trip
pub record IsProof {K X : Type 0} (kit : Kit K X) (resp : HttpResponse) : Type 0 where
  pub headers : Header
  pub outer_headers : Header
  pub decoded :
      kit.decode resp ≡ ok (record { headers = some headers; outer_headers = some outer_headers })
  pub returned : lookup header_key_inner headers ≡ some inner_header_payload
  pub hidden : lookup header_key_outer outer_headers ≡ none
  pub unset : lookup (codes "X-Test-Gateway-Outer") resp.header ≡ none
  pub closed : kit.close_error resp ≡ none

abbrev is_there : Option Text → Bool
is_there o = elim o [ none ↦ false | some v ↦ true ]

returned_iff : (a : Option Text) → (is_returned a ≡ true) ↔ (a ≡ some inner_header_payload)
returned_iff none = (λ h. absurd (cc h), λ h. absurd (cc h))
returned_iff (some v) = (
  λ h. ap some ((text_eq_iff v inner_header_payload).0 h),
  λ h. (text_eq_iff v inner_header_payload).1 (cc h),
)

there_iff : (o : Option Text) → (is_there o ≡ false) ↔ (o ≡ none)
there_iff none = (λ _. refl, λ _. refl)
there_iff (some v) = (λ h. absurd (cc h), λ h. absurd (cc h))

tests_iff :
    (a b c : Option Text)
    → ((if not (is_returned a) || is_there b || is_there c then fails else passes) ≡ passes)
      ↔ ((a ≡ some inner_header_payload) × (b ≡ none) × (c ≡ none))
tests_iff a b c = ground (arith, returned_iff a, there_iff b, there_iff c)

module _ {K X : Type 0} (kit : Kit K X) (resp : HttpResponse) where
  judge-IsProof :
      (h o : Option Header) (c : Option Error)
      → kit.decode resp ≡ ok (record { headers = h; outer_headers = o })
      → kit.close_error resp ≡ c
      → close c (check_answer (record { headers = h; outer_headers = o }) resp.header) ≡ passes
      → IsProof kit resp
  unfolding check_answer close
  judge-IsProof h o (some e) decoded closed p = absurd (cc p)
  judge-IsProof none o none decoded closed p = absurd (cc p)
  judge-IsProof (some h) none none decoded closed p = absurd (cc p)
  judge-IsProof (some h) (some o) none decoded closed p =
      let (returned, hidden, unset) = (tests_iff _ _ _).0 p in
      record {
        headers = h;
        outer_headers = o;
        decoded = decoded;
        returned = returned;
        hidden = hidden;
        unset = unset;
        closed = closed;
      }

  judge_answer-IsProof :
      (r : Result Payload)
      → kit.decode resp ≡ r
      → judge_answer kit (ok resp) ≡ passes
      → IsProof kit resp
  unfolding judge_answer judge
  judge_answer-IsProof (err e) decoded p = elim (Option-cases (kit.close_error resp)) [
    | inl n ↦ absurd (cc (rw (judge_answer, judge, decoded, n) at p))
    | inr (f, n) ↦ absurd (cc (rw (judge_answer, n) at p))
  ]
  judge_answer-IsProof (ok q) decoded p =
      judge-IsProof q.headers q.outer_headers (kit.close_error resp) decoded refl
        (rw (judge_answer, judge, decoded) at p)

  passes-IsProof : IsProof kit resp → judge_answer kit (ok resp) ≡ passes
  unfolding judge_answer judge check_answer close
  passes-IsProof p =
      rw (judge_answer, judge, p.decoded, p.closed)
        ((tests_iff _ _ _).1 (p.returned, p.hidden, p.unset))

  judge_answer_iff : (judge_answer kit (ok resp) ≡ passes) ↔ IsProof kit resp
  judge_answer_iff = (judge_answer-IsProof (kit.decode resp) refl, passes-IsProof)

passing :
    {K X : Type 0} (kit : Kit K X) (a : Result HttpResponse)
    → (judge_answer kit a ≡ passes) ↔ ((resp : HttpResponse) × (a ≡ ok resp) × IsProof kit resp)
unfolding judge_answer
passing kit (err e) = (λ p. absurd (cc p), λ q. absurd (cc (q.1)))
passing kit (ok resp) = (
  λ p. (resp, refl, (judge_answer_iff kit resp).0 p),
  λ q. ap (judge_answer kit) (q.1) ∙ (judge_answer_iff kit (q.0)).1 (q.2),
)

module _ {K S X : Type 0} (lib : Libraries K) (sys : System S) (kit : Kit K X) (disk : Disk)
    (settings : Settings) (env : Env) (t : Trace) where
  -- what the test gets, and where it leaves the world
  abbrev pub answer : Result HttpResponse × Trace
  answer =
      let (loaded, t') = load_key_config lib sys kit disk settings env t in
      attempt loaded (send_test kit settings.relay_url) env t'

  -- `main` ends well exactly if it gets an answer, and this proves the round trip.
  pub main_passes_iff :
      ((main lib sys kit disk settings env t).0 ≡ passes)
      ↔ ((resp : HttpResponse) × (answer.0 ≡ ok resp) × IsProof kit resp)
  unfolding main ◌>>=◌
  main_passes_iff = passing kit answer.0
