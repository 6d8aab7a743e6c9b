-- ===== src/Traffic.antt =====
-- pkg/ohttp-relay/traffic/metrics.go: traffic counters in Redis, in one hash per host and hour.
pub mod Laws
use ohttp_relay.Prelude.{
  ℕ, ◌*◌, ◌^◌, ltb_ℤ, if◌then◌else◌, Option, none, some, List, [], ◌∷◌, ◌++◌, ℤ, pos, Bool, true,
  false,
}
use ohttp_relay.Text.{Text, codes}
use ohttp_relay.Text.Decimal.{two_digits, four_digits}
use ohttp_relay.Fault.{Error, message, end, wrapped, Result, ok, err}
use ohttp_relay.Exec.{
  Utc, RedisCommand, hincrby, expire, redis_exec, Exec, pure, ask, perform, ◌>>=◌,
}

-- The interface: RecordTraffic, with its error or nil.
abbrev pub TrafficMetrics : Type 0
TrafficMetrics = Text → ℤ → ℤ → Exec (Option Error)

-- `rdb` is whether the client is there. A duration is a count of nanoseconds.
pub record RedisTrafficMetrics : Type 0 where
  pub rdb : Bool
  pub ttl : ℤ

abbrev pub hour : ℕ
hour = 3600 * 10 ^ 9

abbrev default_ttl : ℤ → ℤ
default_ttl ttl = if ltb_ℤ (pos 0) ttl then ttl else pos (72 * hour)

-- NewRedisTrafficMetrics; `client` is none for a nil client, else the answer of its Ping.
unfoldable pub new_redis_traffic_metrics : Option (Option Error) → ℤ → Result RedisTrafficMetrics
new_redis_traffic_metrics none ttl = ok (record { rdb = false; ttl = default_ttl ttl })
new_redis_traffic_metrics (some none) ttl = ok (record { rdb = true; ttl = default_ttl ttl })
new_redis_traffic_metrics (some (some e)) ttl =
    err (message (codes "redis ping failed: %w") (wrapped e end))

-- t.UTC().Format("2006-01-02-15")
unfoldable pub window : Utc → Text
window t =
    four_digits t.year
    ++ (codes "-"
        ++ (two_digits t.month
            ++ (codes "-" ++ (two_digits t.day ++ (codes "-" ++ two_digits t.hour)))))

-- generateKey
unfoldable pub generate_key : Text → Utc → Text
unfolding window
generate_key host t = codes "gateway:" ++ (host ++ (codes ":traffic:" ++ window t))

abbrev report_exec : Option Error → Option Error
report_exec none = none
report_exec (some e) = some (message (codes "failed to record traffic metrics: %w") (wrapped e end))

-- the pipeline, once the receiver and its client are there
unfoldable pub run_pipeline : RedisTrafficMetrics → TrafficMetrics
run_pipeline r host bytes_in bytes_out = do
  t ← ask (λ env trace. env.utc trace)
  let key = generate_key host t
  let pipe : List RedisCommand =
      hincrby key (codes "bytes_in") bytes_in
      ∷ hincrby key (codes "bytes_out") bytes_out
      ∷ expire key r.ttl
      ∷ []
  e ← perform (redis_exec pipe) (λ env trace. env.pipeline_exec trace pipe)
  pure (report_exec e)

-- RedisTrafficMetrics.RecordTraffic; the receiver may be nil
unfoldable pub record_traffic : Option RedisTrafficMetrics → TrafficMetrics
unfolding run_pipeline
record_traffic none host bytes_in bytes_out = pure none
record_traffic (some r) host bytes_in bytes_out =
    if r.rdb then run_pipeline r host bytes_in bytes_out else pure none

-- NoOpTrafficMetrics.RecordTraffic
unfoldable pub no_op_record_traffic : TrafficMetrics
no_op_record_traffic host bytes_in bytes_out = pure none
