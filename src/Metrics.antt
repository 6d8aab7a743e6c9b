-- ===== src/Metrics.antt =====
-- pkg/ohttp-relay/metrics/metrics.go: the instruments, their creation at startup, and what is
-- recorded for a request, an error, a call of the gateway and its traffic.
pub mod Laws
use ohttp_relay.Prelude.{ℕ, ◌/◌, Option, none, some, List, [], ◌∷◌, ◌++◌, ℤ, pos}
use ohttp_relay.Text.{Text, codes}
use ohttp_relay.Text.Decimal.{decimal}
use ohttp_relay.Fault.{Error, message, end, wrapped}
use ohttp_relay.Exec.{
  Instrument, requests_total, errors_total, gateway_requests_total, traffic_bytes_in,
  traffic_bytes_out, request_duration, gateway_request_duration, request_size_bytes,
  response_size_bytes, active_requests, count, duration, measure, Exec, emit, ◌>>◌,
}

pub data Kind : Type 0 where
  int64_counter int64_histogram float64_histogram int64_up_down_counter : Kind

-- One call of the meter: the variable that it assigns and its arguments.
pub record Creation : Type 0 where
  pub variable : Instrument
  pub kind : Kind
  pub name : Text
  pub unit : Text

abbrev pub creations : List Creation
creations =
    record {
      variable = requests_total;
      kind = int64_counter;
      name = codes "ohttp_relay_requests_total";
      unit = [];
    }
    ∷ record {
      variable = errors_total;
      kind = int64_counter;
      name = codes "ohttp_relay_errors_total";
      unit = [];
    }
    ∷ record {
      variable = gateway_requests_total;
      kind = int64_counter;
      name = codes "ohttp_relay_gateway_requests_total";
      unit = [];
    }
    ∷ record {
      variable = request_duration;
      kind = float64_histogram;
      name = codes "ohttp_relay_request_duration_seconds";
      unit = codes "s";
    }
    ∷ record {
      variable = gateway_request_duration;
      kind = float64_histogram;
      name = codes "ohttp_relay_gateway_duration_seconds";
      unit = codes "s";
    }
    ∷ record {
      variable = request_size_bytes;
      kind = int64_histogram;
      name = codes "ohttp_relay_request_size_bytes";
      unit = codes "By";
    }
    ∷ record {
      variable = response_size_bytes;
      kind = int64_histogram;
      name = codes "ohttp_relay_response_size_bytes";
      unit = codes "By";
    }
    ∷ record {
      variable = active_requests;
      kind = int64_up_down_counter;
      name = codes "ohttp_relay_active_requests";
      unit = [];
    }
    ∷ record {
      variable = traffic_bytes_in;
      kind = int64_counter;
      name = codes "ohttp_relay_traffic_bytes_in_total";
      unit = codes "By";
    }
    ∷ record {
      variable = traffic_bytes_out;
      kind = int64_counter;
      name = codes "ohttp_relay_traffic_bytes_out_total";
      unit = codes "By";
    }
    ∷ []

-- The calls in order up to the first that fails: the error that is returned, and the variables
-- that have been assigned. A call assigns its variable also when it fails.
unfoldable pub create : (Creation → Option Error) → List Creation → Option Error × List Instrument
create meter [] = (none, [])
create meter (c ∷ cs) =
    let rest = create meter cs in
    elim (meter c) [ some e ↦ (some e, c.variable ∷ []) | none ↦ (rest.0, c.variable ∷ rest.1) ]

-- InitMetrics; `exporter` is the error of otelprom.New, and `meter` that of each call of the meter.
unfoldable pub init_metrics :
    Option Error → (Creation → Option Error) → Option Error × List Instrument
unfolding create
init_metrics (some e) meter =
    (some (message (codes "create prometheus exporter: %w") (wrapped e end)), [])
init_metrics none meter = create meter creations

-- RecordRequest
unfoldable pub record_request : Text → Text → ℤ → ℤ → ℤ → Exec (Unit {0})
record_request method status_category elapsed req_size resp_size =
    let attrs : List (Text × Text) =
      (codes "method", method) ∷ (codes "status_category", status_category) ∷ [] in
    do
      emit (measure requests_total (count (pos 1)) attrs)
      emit (measure request_duration (duration elapsed) attrs)
      emit (measure request_size_bytes (count req_size) attrs)
      emit (measure response_size_bytes (count resp_size) attrs)

-- RecordError
unfoldable pub record_error : Text → Exec (Unit {0})
record_error error_type =
    emit (measure errors_total (count (pos 1)) ((codes "error_type", error_type) ∷ []))

-- fmt.Sprintf("%dxx", statusCode/100)
unfoldable pub status_category : ℕ → Text
unfolding decimal
status_category status_code = decimal (status_code / 100) ++ codes "xx"

-- RecordGatewayRequest
unfoldable pub record_gateway_request : ℕ → ℤ → Exec (Unit {0})
record_gateway_request status_code elapsed =
    let attrs : List (Text × Text) = (codes "status_category", status_category status_code) ∷ [] in
    do
      emit (measure gateway_requests_total (count (pos 1)) attrs)
      emit (measure gateway_request_duration (duration elapsed) attrs)

-- RecordTrafficIO
unfoldable pub record_traffic_io : Text → ℤ → ℤ → Exec (Unit {0})
record_traffic_io host bytes_in bytes_out =
    let attrs : List (Text × Text) = (codes "host", host) ∷ [] in
    do
      emit (measure traffic_bytes_in (count bytes_in) attrs)
      emit (measure traffic_bytes_out (count bytes_out) attrs)
