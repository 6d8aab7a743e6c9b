-- ===== src/App/Booking.antt =====
-- The traffic of a run: what the counters of metrics.go count, against what the traffic metrics of
-- pkg/ohttp-relay/traffic/metrics.go send to Redis.
pub mod Runs
use ohttp_relay.Prelude.{
  ◌≡◌, refl, ap, sym, ◌∙◌, true, false, Option, none, some, List, [], ◌∷◌, ◌++◌, ℤ, arith, All,
  append_assoc, append-nil, if◌then◌else◌,
}
use ohttp_relay.Text.{Text, codes, text_eq}
use ohttp_relay.Exec.{
  Env, Trace, Effect, measure, count, log_error, http_do, redis_hget, redis_exec, send,
  traffic_bytes_in, traffic_bytes_out, requests_total, errors_total, gateway_requests_total,
  request_duration, gateway_request_duration, request_size_bytes, response_size_bytes,
  active_requests, RedisCommand, hincrby, expire,
}
use ohttp_relay.Exec.Does.{Composes}
use ohttp_relay.Traffic.{generate_key}

-- an amount that is added to a field of a key, with the trace before the effect that adds it
pub record Stored : Type 0 where
  pub before : Trace
  pub key : Text
  pub amount : ℤ

-- the amounts of a list of commands for a field
abbrev pub increments : Text → Trace → List RedisCommand → List Stored
increments field t [] = []
increments field t (hincrby key f n ∷ pipe) =
    let rest = increments field t pipe in
    if text_eq f field then record { before = t; key = key; amount = n } ∷ rest else rest
increments field t (expire key ttl ∷ pipe) = increments field t pipe

-- what an effect after a trace counts for a host, into the relay and out of it
abbrev pub counted_in : Trace → Effect → List (Text × ℤ)
counted_in t (measure traffic_bytes_in (count n) ((k, host) ∷ [])) = (host, n) ∷ []
counted_in t _ = []

abbrev pub counted_out : Trace → Effect → List (Text × ℤ)
counted_out t (measure traffic_bytes_out (count n) ((k, host) ∷ [])) = (host, n) ∷ []
counted_out t _ = []

-- what an effect after a trace adds in Redis to a field
abbrev pub stored : Text → Trace → Effect → List Stored
stored field t (redis_exec pipe) = increments field t pipe
stored field t _ = []

-- what the effects of the second trace give, after the first one
abbrev pub gather : {A : Type 0} → (Trace → Effect → List A) → Trace → Trace → List A
gather f t [] = []
gather f t (e ∷ s) = f t e ++ gather f (t ++ e ∷ []) s

gather-append :
    {A : Type 0} (f : Trace → Effect → List A) (t s s' : Trace)
    → gather f t (s ++ s') ≡ gather f t s ++ gather f (t ++ s) s'
gather-append f t [] s' = ap (λ (v : Trace). gather f v s') (sym (append-nil t))
gather-append {A} f t (e ∷ s) s' =
    ap (λ (r : List A). f t e ++ r)
      (gather-append f (t ++ e ∷ []) s s'
        ∙ ap (λ (v : Trace). gather f (t ++ e ∷ []) s ++ gather f v s') (append_assoc t (e ∷ []) s))
    ∙ sym (append_assoc (f t e) (gather f (t ++ e ∷ []) s) (gather f (t ++ e ∷ s) s'))

module _ (env : Env) where
  -- The second list has the amounts of the first, in its order, each under the key of its host and of
  -- the time at which it is sent.
  abbrev pub Agree : List (Text × ℤ) → List Stored → Type 0
  Agree [] [] = Unit
  Agree ((host, n) ∷ xs) (y ∷ ys) =
      (y.key ≡ generate_key host (env.utc y.before)) × (n ≡ y.amount) × Agree xs ys
  Agree [] (y ∷ ys) = ⊥
  Agree (x ∷ xs) [] = ⊥

  Agree-append :
      (xs : List (Text × ℤ)) (ys : List Stored) (xs' : List (Text × ℤ)) (ys' : List Stored)
      → Agree xs ys
      → Agree xs' ys'
      → Agree (xs ++ xs') (ys ++ ys')
  Agree-append [] [] xs' ys' p q = q
  Agree-append ((host, n) ∷ xs) (y ∷ ys) xs' ys' (k, e, p) q =
      (k, e, Agree-append xs ys xs' ys' p q)
  Agree-append [] (y ∷ ys) xs' ys' p q = absurd p
  Agree-append (x ∷ xs) [] xs' ys' p q = absurd p

  -- What the effects of `s` after `t` count is what they send to Redis.
  pub record IsBooked (t s : Trace) : Type 0 where
    pub bytes_in : Agree (gather counted_in t s) (gather (stored (codes "bytes_in")) t s)
    pub bytes_out : Agree (gather counted_out t s) (gather (stored (codes "bytes_out")) t s)

  pub IsBooked-append :
      (t s s' : Trace) → IsBooked t s → IsBooked (t ++ s) s' → IsBooked t (s ++ s')
  IsBooked-append t s s' p q = record {
    bytes_in =
        rw (gather-append counted_in t s s', gather-append (stored (codes "bytes_in")) t s s')
          (Agree-append _ _ _ _ p.bytes_in q.bytes_in);
    bytes_out =
        rw (gather-append counted_out t s s', gather-append (stored (codes "bytes_out")) t s s')
          (Agree-append _ _ _ _ p.bytes_out q.bytes_out);
  }

instance abbrev pub IsBooked-Composes : {env : Env} → Composes (IsBooked env)
IsBooked-Composes {env} = record {
  nothing = λ t. record { bytes_in = tt; bytes_out = tt };
  both = IsBooked-append env;
}

-- not traffic
abbrev pub IsPlain : Effect → Type 0
IsPlain (measure traffic_bytes_in m a) = ⊥
IsPlain (measure traffic_bytes_out m a) = ⊥
IsPlain (redis_exec pipe) = ⊥
IsPlain _ = Unit

-- Other effects count nothing and store nothing.
plain_nothing :
    (t : Trace) (e : Effect)
    → IsPlain e
    → (counted_in t e ≡ []) × (counted_out t e ≡ []) × ((field : Text) → stored field t e ≡ [])
plain_nothing t (measure requests_total m a) p = (refl, refl, λ field. refl)
plain_nothing t (measure errors_total m a) p = (refl, refl, λ field. refl)
plain_nothing t (measure gateway_requests_total m a) p = (refl, refl, λ field. refl)
plain_nothing t (measure traffic_bytes_in m a) p = absurd p
plain_nothing t (measure traffic_bytes_out m a) p = absurd p
plain_nothing t (measure request_duration m a) p = (refl, refl, λ field. refl)
plain_nothing t (measure gateway_request_duration m a) p = (refl, refl, λ field. refl)
plain_nothing t (measure request_size_bytes m a) p = (refl, refl, λ field. refl)
plain_nothing t (measure response_size_bytes m a) p = (refl, refl, λ field. refl)
plain_nothing t (measure active_requests m a) p = (refl, refl, λ field. refl)
plain_nothing t (log_error code f a) p = (refl, refl, λ field. refl)
plain_nothing t (http_do req) p = (refl, refl, λ field. refl)
plain_nothing t (redis_hget key field) p = (refl, refl, λ field. refl)
plain_nothing t (redis_exec pipe) p = absurd p
plain_nothing t (send r) p = (refl, refl, λ field. refl)

module _ (env : Env) where
  -- Effects that are not traffic are booked.
  pub plain-IsBooked : (t s : Trace) → All IsPlain s → IsBooked env t s
  plain-IsBooked t [] p = record { bytes_in = tt; bytes_out = tt }
  plain-IsBooked t (e ∷ s) (p, ps) =
      let (i, o, stores) = plain_nothing t e p in
      let b = plain-IsBooked (t ++ e ∷ []) s ps in
      record {
        bytes_in = rw (i, stores (codes "bytes_in")) b.bytes_in;
        bytes_out = rw (o, stores (codes "bytes_out")) b.bytes_out;
      }
