-- ===== src/Exec.antt =====
-- Code with effects. What the relay does to the world is a trace of effects, the oldest first; what
-- the world answers is a function of the trace so far, so that it may depend on all that happened.
pub mod Does
use ohttp_relay.Prelude.{ℕ, ℤ, Option, List, [], ◌∷◌, ◌++◌}
use ohttp_relay.Text.{Text}
use ohttp_relay.Fault.{Error, Args, Result}
use ohttp_relay.Http.{HttpRequest, DoResult}
use ohttp_relay.Envoy.{StatusCode, ProcessingResponse}

-- The instruments of pkg/ohttp-relay/metrics/metrics.go, lines 19 to 35.
pub data Instrument : Type 0 where
  requests_total errors_total gateway_requests_total : Instrument
  traffic_bytes_in traffic_bytes_out : Instrument
  request_duration gateway_request_duration : Instrument
  request_size_bytes response_size_bytes : Instrument
  active_requests : Instrument

-- A duration in nanoseconds; its conversion into seconds is a float, and is not modelled.
pub data Measure : Type 0 where
  count : ℤ → Measure
  duration : ℤ → Measure

pub data RedisCommand : Type 0 where
  hincrby : Text → Text → ℤ → RedisCommand
  expire : Text → ℤ → RedisCommand

pub data Effect : Type 0 where
  measure : Instrument → Measure → List (Text × Text) → Effect
  log_error : ℕ → Text → Args → Effect
  http_do : HttpRequest → Effect
  redis_hget : Text → Text → Effect
  redis_exec : List RedisCommand → Effect
  send : ProcessingResponse → Effect

abbrev pub Trace : Type 0
Trace = List Effect

-- The parts of time.Now().UTC() that the source prints.
pub record Utc : Type 0 where
  pub year : ℕ
  pub month : ℕ
  pub day : ℕ
  pub hour : ℕ

-- The libraries and services that the relay calls.
pub record Env : Type 0 where
  pub now : Trace → ℕ
  pub utc : Trace → Utc
  pub new_request_error : Text → Text → Option Error
  pub client_do : Trace → HttpRequest → DoResult
  pub hget : Trace → Text → Text → Result Text
  pub pipeline_exec : Trace → List RedisCommand → Option Error
  pub send_error : Trace → ProcessingResponse → Option Error
  pub grpc_code : Error → ℕ
  pub status_number : StatusCode → ℕ

abbrev pub Exec : Type 0 → Type 0
Exec A = Env → Trace → A × Trace

module _ {A : Type 0} where
  unfoldable pub pure : A → Exec A
  pure a env t = (a, t)

  -- What the world says, with no trace of the question.
  unfoldable pub ask : (Env → Trace → A) → Exec A
  ask f env t = (f env t, t)

  -- The answer to an effect: it is asked of the trace before the effect.
  unfoldable pub perform : Effect → (Env → Trace → A) → Exec A
  perform e f env t = (f env t, t ++ e ∷ [])

abbrev pub emit : Effect → Exec (Unit {0})
emit e = perform e (λ _ _. tt)

module _ {A B : Type 0} where
  infixl 5 ◌>>=◌
  -- opening this opens `pure`, `ask` and `perform` too
  unfoldable pub ◌>>=◌ : Exec A → (A → Exec B) → Exec B
  unfolding pure ask perform
  ◌>>=◌ m f env t = let (a, t') = m env t in f a env t'

infixl 5 ◌>>◌
abbrev pub ◌>>◌ : {B : Type 0} → Exec (Unit {0}) → Exec B → Exec B
m >> n = m >>= λ _. n
