-- ===== src/Handlers/Accounts.antt =====
-- server.go: what the loop has counted of a stream, against what it has received and sent.
pub mod Rounds
use ohttp_relay.Prelude.{
  ℕ, ◌+◌, ◌%◌, ◌^◌, ◌≡◌, refl, sym, ap, ◌∙◌, true, false, Option, none, some, List, [], ◌∷◌, ◌++◌,
  arith, length, append-nil, append_assoc, All,
}
use ohttp_relay.Text.{Bytes}
use ohttp_relay.Fault.{Error, Result, ok, err}
use ohttp_relay.Envoy.{StatusCode, request_body, ProcessingResponse, immediate_response}
use ohttp_relay.Exec.{
  Effect, Trace, Env, Exec, measure, log_error, http_do, redis_hget, redis_exec, send, pure, ◌>>=◌,
}
use ohttp_relay.Exec.Does.{Does}
use ohttp_relay.Handlers.Process.{Input, received, Loop, Step, continue, return}

-- the bytes of the chunks among the inputs
abbrev pub chunk_bytes : Input → ℕ
chunk_bytes (received (ok (request_body chunk end_of_stream))) = length chunk
chunk_bytes _ = 0

abbrev pub total_received : List Input → ℕ
total_received [] = 0
total_received (i ∷ inputs) = chunk_bytes i + total_received inputs

-- the bytes of the bodies that are handed to Send
abbrev pub sent_bytes : Effect → ℕ
sent_bytes (send (immediate_response ir)) = length ir.body
sent_bytes _ = 0

abbrev pub total_sent : Trace → ℕ
total_sent [] = 0
total_sent (e ∷ t) = sent_bytes e + total_sent t

-- the status of the last response with a status that is handed to Send, or `d` with none
abbrev pub next_status : (StatusCode → ℕ) → ℕ → Effect → ℕ
next_status number d (send (immediate_response ir)) = elim ir.status [
  | none ↦ d
  | some c ↦ number c
]
next_status number d _ = d

abbrev pub last_status : (StatusCode → ℕ) → ℕ → Trace → ℕ
last_status number d [] = d
last_status number d (e ∷ t) = last_status number (next_status number d e) t

-- not a response
abbrev pub IsQuiet : Effect → Type 0
IsQuiet (send r) = ⊥
IsQuiet _ = Unit

abbrev pub loop_of : Step → Loop
loop_of (continue l) = l
loop_of (return l e) = l

-- A step from `l` on has counted `n` bytes more of the request and the responses of `added`.
pub record Counts (env : Env) (l : Loop) (n : ℕ) (l' : Loop) (added : Trace) : Type 0 where
  pub received : l'.req_size % 2 ^ 64 ≡ (l.req_size + n) % 2 ^ 64
  pub sent : l'.resp_size % 2 ^ 64 ≡ (l.resp_size + total_sent added) % 2 ^ 64
  pub status : l'.status_code ≡ last_status env.status_number l.status_code added

pub total_sent-append : (s t : Trace) → total_sent (s ++ t) ≡ total_sent s + total_sent t
total_sent-append [] t = omega arith
total_sent-append (e ∷ s) t = omega (arith, total_sent-append s t)

pub last_status-append :
    (number : StatusCode → ℕ) (d : ℕ) (s t : Trace)
    → last_status number d (s ++ t) ≡ last_status number (last_status number d s) t
last_status-append number d [] t = refl
last_status-append number d (e ∷ s) t = last_status-append number (next_status number d e) s t

quiet_step :
    (number : StatusCode → ℕ) (d : ℕ) (e : Effect)
    → IsQuiet e
    → (sent_bytes e ≡ 0) × (next_status number d e ≡ d)
quiet_step number d (measure i m a) q = (refl, refl)
quiet_step number d (log_error code f a) q = (refl, refl)
quiet_step number d (http_do req) q = (refl, refl)
quiet_step number d (redis_hget key field) q = (refl, refl)
quiet_step number d (redis_exec pipe) q = (refl, refl)
quiet_step number d (send r) q = absurd q

pub quiet_sent : (s : Trace) → All IsQuiet s → total_sent s ≡ 0
quiet_sent [] _ = refl
quiet_sent (e ∷ s) (q, qs) = omega (arith, (quiet_step (λ c. 0) 0 e q).0, quiet_sent s qs)

pub quiet_status :
    (number : StatusCode → ℕ) (d : ℕ) (s : Trace) → All IsQuiet s → last_status number d s ≡ d
quiet_status number d [] _ = refl
quiet_status number d (e ∷ s) (q, qs) =
    ap (λ x. last_status number x s) (quiet_step number d e q).1 ∙ quiet_status number d s qs

module _ (env : Env) where
  pub Counts-refl : (l : Loop) → Counts env l 0 l []
  Counts-refl l = record { received = omega arith; sent = omega arith; status = refl }

  pub Counts-trans :
      {l l' l'' : Loop} {n k : ℕ} {s t : Trace}
      → Counts env l n l' s
      → Counts env l' k l'' t
      → (r : ℕ) → n + k ≡ r
      → Counts env l r l'' (s ++ t)
  Counts-trans {l} {l'} {l''} {n} {k} {s} {t} c d r e = record {
    received = omega (arith, c.received, d.received);
    sent = omega (arith, c.sent, d.sent, total_sent-append s t);
    status =
        d.status
        ∙ ap (λ x. last_status env.status_number x t) c.status
        ∙ sym (last_status-append env.status_number l.status_code s t);
  }

  -- Steps that send nothing count nothing.
  pub Counts-quiet : (l : Loop) (s : Trace) → All IsQuiet s → Counts env l 0 l s
  Counts-quiet l s q = record {
    received = omega arith;
    sent = omega (arith, quiet_sent s q);
    status = sym (quiet_status env.status_number l.status_code s q);
  }

  -- an action that counts what it does, with `n` bytes that it receives
  pub record Tracks (l : Loop) (n : ℕ) (m : Exec Step) : Type 0 where
    pub at :
        (t : Trace)
        → (added : Trace) × ((m env t).1 ≡ t ++ added) × Counts env l n (loop_of (m env t).0) added

  pub Tracks-pure :
      (l : Loop) (n : ℕ) (step : Step) → Counts env l n (loop_of step) [] → Tracks l n (pure step)
  unfolding pure
  Tracks-pure l n step c = record { at = λ t. ([], sym (append-nil t), c) }

  -- After something that sends nothing.
  pub Tracks-after :
      {A : Type 0} {Q : A → Type 0} {m : Exec A} {f : A → Exec Step} (l : Loop) (n : ℕ)
      → Does env IsQuiet Q m
      → ((a : A) → Q a → Tracks l n (f a))
      → Tracks l n (m >>= f)
  unfolding ◌>>=◌
  Tracks-after {m} {f} l n d k = record {
    at = λ t.
        let (s, e, quiet, q) = d.at t in
        let (s', e', c) = (k (m env t).0 q).at (m env t).1 in
        (
          s ++ s',
          e' ∙ ap (λ (v : Trace). v ++ s') e ∙ append_assoc t s s',
          Counts-trans (Counts-quiet l s quiet) c n (omega arith),
        );
  }
