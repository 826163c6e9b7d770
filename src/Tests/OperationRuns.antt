-- ===== src/Tests/OperationRuns.antt =====
-- Metrics, the writer of responses and the cleanup of the rate limiter, at small inputs.
use blindvault.Base.{
  ℕ, suc, ◌≡◌, refl, arith, true, ◌&&◌, some, List, [], ◌∷◌, Text, bytes, if◌then◌else◌, pos,
}
use blindvault.Api.RateLimiter.{RateLimiter, LimitClient}
use blindvault.Api.Server.Build.{clean_at}
use blindvault.Api.Server.Cleanup.{staying, clean_at-staying}
use blindvault.Api.Writer.{
  Script, WriterCall, IsHttp, write_header, write, is_informational, no_calls, recovery_middleware,
  recovery_sent,
}
use blindvault.Metrics.{Event, issuance, http_request}
use blindvault.Metrics.Collector.{
  Prometheus, IsPrometheus, same_labels, new_metrics_collector, report_all,
}
use blindvault.Metrics.Collector.Counts.{counter, occurrences, counter_counts}
use blindvault.Tests.ToyServer.{toy_rate}

-- counters as functions of their labels
abbrev toy_prometheus : Prometheus
toy_prometheus = record {
  Counters = List Text → ℕ;
  Histograms = List ℕ;
  new_counters = λ name n labels. 0;
  new_histograms = λ name n. [];
  inc = λ labels v others. if same_labels labels others then suc (v others) else v others;
  observe = λ labels n h. n ∷ h;
  value = λ labels v. v labels;
}

toy_IsPrometheus : IsPrometheus toy_prometheus
toy_IsPrometheus = record {
  value-new_counters = λ name n labels. refl;
  value-inc = λ labels others v. refl;
}

abbrev trace : List (ℕ × Event)
trace =
    (0, issuance (bytes "success") (bytes "vote"))
    ∷ ((3, http_request (bytes "POST") (bytes "/v1/credential/issue") 200)
        ∷ ((0, issuance (bytes "success") (bytes "vote")) ∷ []))

counter_counts_example :
    counter toy_prometheus
      (issuance (bytes "success") (bytes "vote"))
      (report_all toy_prometheus trace (new_metrics_collector toy_prometheus))
    ≡ occurrences (issuance (bytes "success") (bytes "vote")) trace
counter_counts_example =
    counter_counts toy_prometheus toy_IsPrometheus trace (issuance (bytes "success") (bytes "vote"))

-- a handler that has answered with 409 and panics then
abbrev late_panic : Script
late_panic = record { calls = write_header 409 ∷ (write (bytes "{}") ∷ []); panics = true }

-- a net/http that computes
sent : List WriterCall → ℕ
sent [] = 200
sent (write_header n ∷ calls) = let rest = sent calls in if is_informational n then rest else n
sent (write b ∷ calls) = 200

sent-IsHttp : IsHttp sent
unfolding sent
sent-IsHttp = record {
  nothing = refl;
  body = λ b calls. refl;
  final = λ n calls h. ground arith;
  informational = λ n calls h. ground arith;
}

recovery_sent_example :
    sent (recovery_middleware (bytes "error") late_panic).1
    ≡ (if late_panic.panics && no_calls late_panic.calls then 500 else sent late_panic.calls)
recovery_sent_example = recovery_sent sent-IsHttp (bytes "error") late_panic refl

abbrev clients : List (Text × LimitClient toy_rate)
clients =
    (
      bytes "10.0.0.1",
      record {
        client = bytes "10.0.0.1";
        limit = toy_rate.new_limiter toy_rate.zero_limit (pos 1);
        last_updated = 5;
      },
    )
    ∷ []

abbrev limiter : RateLimiter toy_rate
limiter = record {
  limit = toy_rate.zero_limit;
  burst = pos 1;
  clients = some clients;
  max_clients = pos 2;
}

clean_at-staying_example :
    clean_at (600000000000 ∷ (1200000000000 ∷ [])) limiter
    ≡ record limiter { clients = some (staying (600000000000 ∷ (1200000000000 ∷ [])) clients) }
clean_at-staying_example =
    clean_at-staying (600000000000 ∷ (1200000000000 ∷ [])) limiter clients refl
