-- ===== src/Handlers/Return.antt =====
-- server.go: when Process returns, and with what.
use ohttp_relay.Prelude.{
  ℕ, ◌≡◌, ◌⊎◌, inl, inr, refl, Bool, true, false, ◌||◌, Option, none, some, List, [], ◌∷◌, ◌++◌,
  arith, if◌then◌else◌, pos,
}
use ohttp_relay.Text.{Unicode}
use ohttp_relay.Fault.{Error, Result, ok, err, is, equals, canceled, end_of_file}
use ohttp_relay.Envoy.{
  ProcessingRequest, request_headers, request_body, request_trailers, response_headers,
  response_body, other,
}
use ohttp_relay.Exec.{measure, active_requests, count, Env, Trace, Exec, pure, ◌>>=◌}
use ohttp_relay.Handlers.Server.{Server, Responses}
use ohttp_relay.Handlers.Process.{
  Input, done, received, Loop, Step, continue, return, returned, new_loop, after_send,
  send_responses, dispatch_result, is_too_large, on_request_body, handle_request, round, proceed,
  rounds, conclude, process,
}

-- The end of the context, or an error of Recv.
abbrev pub IsLast : Input → Type 0
IsLast (done e) = Unit
IsLast (received (err e)) = Unit
IsLast (received (ok req)) = ⊥

-- The client has closed the stream, or canceled it.
abbrev pub is_clean_end : Input → Bool
is_clean_end (received (err e)) = equals end_of_file e || is canceled e
is_clean_end _ = false

abbrev pub HasCleanEnd : List Input → Type 0
HasCleanEnd [] = ⊥
HasCleanEnd (i ∷ inputs) = (is_clean_end i ≡ true) ⊎ HasCleanEnd inputs

abbrev Returns : Step → Type 0
Returns (continue l) = ⊥
Returns (return l e) = Unit

-- If it returns nil, then `P`.
abbrev NilOnly : Type 0 → Step → Type 0
NilOnly P (continue l) = Unit
NilOnly P (return l none) = P
NilOnly P (return l (some e)) = Unit

-- Whatever the trace, the result of `m` satisfies `Q`.
record Yields {A : Type 0} (env : Env) (Q : A → Type 0) (m : Exec A) : Type 0 where
  at : (t : Trace) → Q (m env t).0

module _ {A : Type 0} {env : Env} {Q : A → Type 0} where
  Yields-pure : (a : A) → Q a → Yields env Q (pure a)
  unfolding pure
  Yields-pure a q = record { at = λ t. q }

  Yields-if :
      (b : Bool) {m n : Exec A}
      → (b ≡ true → Yields env Q m)
      → (b ≡ false → Yields env Q n)
      → Yields env Q (if b then m else n)
  Yields-if true dm dn = dm refl
  Yields-if false dm dn = dn refl

  Yields-bind :
      {B : Type 0} {R : B → Type 0} {m : Exec B} {f : B → Exec A}
      → Yields env R m
      → ((b : B) → R b → Yields env Q (f b))
      → Yields env Q (m >>= f)
  unfolding ◌>>=◌
  Yields-bind {m} ym yf = record { at = λ t. (yf (m env t).0 (ym.at t)).at (m env t).1 }

  Yields-after :
      {B : Type 0} (m : Exec B) {f : B → Exec A}
      → ((b : B) → Yields env Q (f b))
      → Yields env Q (m >>= f)
  Yields-after m yf = Yields-bind {R = λ _. Unit} (record { at = λ t. tt }) (λ b _. yf b)

module _ {env : Env} (P : Type 0) where
  after_send-NilOnly :
      (l : Loop) (rest : Exec Step) (o : Option Error)
      → Yields env (NilOnly P) rest
      → Yields env (NilOnly P) (after_send l rest o)
  unfolding after_send
  after_send-NilOnly l rest none h = h
  after_send-NilOnly l rest (some e) h = Yields-after _ (λ _. Yields-pure _ tt)

  send_responses-NilOnly :
      (rs : Responses) (l : Loop) → Yields env (NilOnly P) (send_responses rs l)
  unfolding send_responses
  send_responses-NilOnly [] l = Yields-pure _ tt
  send_responses-NilOnly (r ∷ rs) l =
      Yields-after _
        (λ l'. Yields-after _ (λ o. after_send-NilOnly l' _ o (send_responses-NilOnly rs l')))

  dispatch_result-NilOnly :
      (r : Result Responses) (l : Loop) → Yields env (NilOnly P) (dispatch_result r l)
  unfolding dispatch_result
  dispatch_result-NilOnly (ok rs) l = send_responses-NilOnly rs l
  dispatch_result-NilOnly (err e) l = Yields-after _ (λ _. Yields-after _ (λ _. Yields-pure _ tt))

  handle_request-NilOnly :
      ⦃u : Unicode⦄ (s : Server) (req : ProcessingRequest) (l : Loop)
      → Yields env (NilOnly P) (handle_request s req l)
  unfolding handle_request on_request_body
  handle_request-NilOnly s (request_headers h) l =
      Yields-after _ (λ r. dispatch_result-NilOnly r.0 _)
  handle_request-NilOnly s (request_body c b) l =
      Yields-if (is_too_large s l.st c) (λ _. Yields-after _ (λ rs. send_responses-NilOnly rs _))
        λ _.
          Yields-if b (λ _. Yields-after _ (λ r. dispatch_result-NilOnly r _))
            (λ _. Yields-pure _ tt)
  handle_request-NilOnly s request_trailers l = Yields-pure _ tt
  handle_request-NilOnly s response_headers l = Yields-pure _ tt
  handle_request-NilOnly s response_body l = Yields-pure _ tt
  handle_request-NilOnly s other l = Yields-after _ (λ _. Yields-pure _ tt)

module _ ⦃u : Unicode⦄ (s : Server) {env : Env} where
  round-NilOnly :
      (i : Input) (l : Loop) → Yields env (NilOnly (is_clean_end i ≡ true)) (round s i l)
  unfolding round
  round-NilOnly (done e) l = Yields-pure _ tt
  round-NilOnly (received (err e)) l =
      Yields-if (equals end_of_file e || is canceled e) (λ h. Yields-pure _ h)
        (λ _. Yields-after _ (λ _. Yields-pure _ tt))
  round-NilOnly (received (ok req)) l = handle_request-NilOnly _ s req l

  round-Returns : (i : Input) (l : Loop) → IsLast i → Yields env Returns (round s i l)
  unfolding round
  round-Returns (done e) l h = Yields-pure _ tt
  round-Returns (received (err e)) l h =
      Yields-if (equals end_of_file e || is canceled e) (λ _. Yields-pure _ tt)
        (λ _. Yields-after _ (λ _. Yields-pure _ tt))
  round-Returns (received (ok req)) l h = absurd h

  rounds-NilOnly :
      (inputs : List Input) (l : Loop)
      → Yields env (NilOnly (HasCleanEnd inputs)) (rounds s inputs l)
  unfolding rounds proceed
  rounds-NilOnly [] l = Yields-pure _ tt
  rounds-NilOnly (i ∷ inputs) l = Yields-bind (round-NilOnly i l) (elim [
    | continue l' ↦ λ _. widen (rounds-NilOnly inputs l')
    | return l' none ↦ λ h. Yields-pure _ (inl h)
    | return l' (some e) ↦ λ _. Yields-pure _ tt
  ])
    where
      widen :
          {m : Exec Step}
          → Yields env (NilOnly (HasCleanEnd inputs)) m
          → Yields env (NilOnly (HasCleanEnd (i ∷ inputs))) m
      widen {m} y = record { at = λ t. later (m env t).0 (y.at t) }
        where
          later : (r : Step) → NilOnly (HasCleanEnd inputs) r → NilOnly (HasCleanEnd (i ∷ inputs)) r
          later (continue l') q = tt
          later (return l' none) q = inr q
          later (return l' (some e)) q = tt

  rounds-Returns :
      (before : List Input) (last : Input) (rest : List Input) (l : Loop)
      → IsLast last
      → Yields env Returns (rounds s (before ++ last ∷ rest) l)
  unfolding rounds proceed
  rounds-Returns [] last rest l h =
      Yields-bind {R = Returns} (round-Returns last l h)
        (elim [ continue l' ↦ λ q. absurd q | return l' e ↦ λ _. Yields-pure _ tt ])
  rounds-Returns (i ∷ before) last rest l h =
      Yields-after _ (elim [
        | continue l' ↦ rounds-Returns before last rest l' h
        | return l' e ↦ Yields-pure _ tt
      ])

module _ ⦃u : Unicode⦄ (s : Server) (env : Env) where
  conclude-nil :
      (start : ℕ) (step : Step) (t : Trace)
      → (conclude start step env t).0 ≡ returned none
      → (l : Loop) × (step ≡ return l none)
  unfolding conclude ◌>>=◌
  conclude-nil start (continue l) t h = absurd (ground arith)
  conclude-nil start (return l none) t h = (l, refl)
  conclude-nil start (return l (some e)) t h = absurd (ground arith)

  conclude-Returns :
      (start : ℕ) (step : Step) (t : Trace)
      → Returns step
      → (e : Option Error) × ((conclude start step env t).0 ≡ returned e)
  unfolding conclude ◌>>=◌
  conclude-Returns start (continue l) t h = absurd h
  conclude-Returns start (return l e) t h = (e, refl)

  -- Process returns nil only if the client has closed or canceled the stream.
  pub nil_return :
      (inputs : List Input) (t : Trace)
      → (process s inputs env t).0 ≡ returned none
      → HasCleanEnd inputs
  unfolding process ◌>>=◌
  nil_return inputs t h =
      let t' : Trace = t ++ measure active_requests (count (pos 1)) [] ∷ [] in
      let (l, e) = conclude-nil _ _ _ h in
      let q : NilOnly (HasCleanEnd inputs) (rounds s inputs new_loop env t').0 =
        (rounds-NilOnly s inputs new_loop).at t' in
      rw e at q

  -- Process returns once the context ends or Recv fails, whatever came before and would come after.
  pub returns_at_last :
      (before : List Input) (last : Input) (rest : List Input) (t : Trace)
      → IsLast last
      → (e : Option Error) × ((process s (before ++ last ∷ rest) env t).0 ≡ returned e)
  unfolding process ◌>>=◌
  returns_at_last before last rest t h =
      conclude-Returns _ _ _ ((rounds-Returns s before last rest new_loop h).at _)
