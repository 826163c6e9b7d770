-- ===== src/Metrics/Collector.antt =====
-- internal/api/metrics.go: the Prometheus metrics behind a reporter.
pub mod Counts
use blindvault.Base.{
  ℕ, zero, suc, ◌+◌, ◌/◌, ◌%◌, ◌≡◌, refl, ◌∙◌, ap, Bool, true, false, ◌&&◌, Option, none, some,
  List, [], ◌∷◌, Text, bytes, length, ltb, nat_eq, ◌==◌, arith, if◌then◌else◌,
}
use blindvault.Metrics.{
  Event, issuance, consumption, http_request, nullifier_store, revocation, unrevocation,
}

-- strconv.Itoa at a status; `fuel` digits are enough for a number below 10 ^ fuel
itoa_onto : ℕ → ℕ → Text → Text
itoa_onto zero n rest = rest
itoa_onto (suc fuel) n rest =
    let more = itoa_onto fuel (n / 10) ((b'0' + n % 10) ∷ rest) in
    if ltb n 10 then (b'0' + n) ∷ rest else more

unfoldable pub itoa : ℕ → Text
unfolding itoa_onto
itoa n = itoa_onto (suc n) n []

abbrev pub same_labels : List Text → List Text → Bool
same_labels [] [] = true
same_labels (l ∷ ls) (k ∷ ks) = let rest = same_labels ls ks in l == k && rest
same_labels _ _ = false

-- github.com/prometheus/client_golang: a vector of counters, and one of histograms. The number is
-- that of the labels.
pub record Prometheus : Type 1 where
  pub Counters : Type 0
  pub Histograms : Type 0
  pub new_counters : Text → ℕ → Counters
  pub new_histograms : Text → ℕ → Histograms
  -- WithLabelValues(...).Inc() and WithLabelValues(...).Observe(...)
  pub inc : List Text → Counters → Counters
  pub observe : List Text → ℕ → Histograms → Histograms
  -- what the endpoint reports of a counter
  pub value : List Text → Counters → ℕ

-- What Prometheus promises of its counters.
pub record IsPrometheus (M : Prometheus) : Type 0 where
  pub value-new_counters :
      (name : Text) (n : ℕ) (labels : List Text) → M.value labels (M.new_counters name n) ≡ 0
  pub value-inc :
      (labels others : List Text) (v : M.Counters)
      → M.value others (M.inc labels v)
        ≡ (if same_labels labels others then suc (M.value others v) else M.value others v)

module _ (M : Prometheus) where
  -- MetricsCollector
  pub record Collector : Type 0 where
    pub http_requests_total : M.Counters
    pub http_request_duration : M.Histograms
    pub credential_issuance : M.Counters
    pub credential_consumption : M.Counters
    pub nullifier_store_ops : M.Counters
    pub revocation_ops : M.Counters
    pub unrevocation_ops : M.Counters

  -- NewMetricsCollector
  unfoldable pub new_metrics_collector : Collector
  new_metrics_collector = record {
    http_requests_total = M.new_counters (bytes "blindvault_http_requests_total") 3;
    http_request_duration = M.new_histograms (bytes "blindvault_http_request_duration_seconds") 2;
    credential_issuance = M.new_counters (bytes "blindvault_credential_issuance_total") 2;
    credential_consumption = M.new_counters (bytes "blindvault_credential_consumption_total") 3;
    nullifier_store_ops = M.new_counters (bytes "blindvault_nullifier_store_operations_total") 2;
    revocation_ops = M.new_counters (bytes "blindvault_revocation_operations_total") 2;
    unrevocation_ops = M.new_counters (bytes "blindvault_unrevocation_operations_total") 2;
  }

  -- RecordHTTPRequest; the last argument is the duration
  unfoldable pub record_http_request : Text → Text → ℕ → ℕ → Collector → Collector
  unfolding itoa
  record_http_request method path status duration m = record m {
    http_requests_total = M.inc (method ∷ path ∷ itoa status ∷ []) m.http_requests_total;
    http_request_duration = M.observe (method ∷ path ∷ []) duration m.http_request_duration;
  }

  -- RecordIssuance
  unfoldable pub record_issuance : Text → Text → Collector → Collector
  record_issuance result class m = record m {
    credential_issuance = M.inc (result ∷ class ∷ []) m.credential_issuance;
  }

  -- RecordConsumption
  unfoldable pub record_consumption : Text → Text → Text → Collector → Collector
  record_consumption result class epoch m = record m {
    credential_consumption = M.inc (result ∷ class ∷ epoch ∷ []) m.credential_consumption;
  }

  -- RecordNullifierStore
  unfoldable pub record_nullifier_store : Text → Text → Collector → Collector
  record_nullifier_store operation result m = record m {
    nullifier_store_ops = M.inc (operation ∷ result ∷ []) m.nullifier_store_ops;
  }

  -- RecordRevocation
  unfoldable pub record_revocation : Text → Text → Collector → Collector
  record_revocation result class m = record m {
    revocation_ops = M.inc (result ∷ class ∷ []) m.revocation_ops;
  }

  -- RecordUnrevocation
  unfoldable pub record_unrevocation : Text → Text → Collector → Collector
  record_unrevocation result class m = record m {
    unrevocation_ops = M.inc (result ∷ class ∷ []) m.unrevocation_ops;
  }

  -- an event of the trace, reported; `seconds` is the duration of a request
  unfoldable pub report : ℕ → Event → Collector → Collector
  unfolding record_http_request record_issuance record_consumption record_nullifier_store
      record_revocation record_unrevocation
  report seconds (issuance result class) m = record_issuance result class m
  report seconds (consumption result class epoch) m = record_consumption result class epoch m
  report seconds (http_request method path status) m =
      record_http_request method path status seconds m
  report seconds (nullifier_store operation result) m = record_nullifier_store operation result m
  report seconds (revocation result class) m = record_revocation result class m
  report seconds (unrevocation result class) m = record_unrevocation result class m

  -- a trace of events with the durations of the requests
  unfoldable pub report_all : List (ℕ × Event) → Collector → Collector
  report_all [] m = m
  report_all ((seconds, e) ∷ trace) m = report_all trace (report seconds e m)
