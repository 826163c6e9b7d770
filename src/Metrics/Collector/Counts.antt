-- ===== src/Metrics/Collector/Counts.antt =====
-- What the counters of internal/api/metrics.go count.
use blindvault.Base.{ℕ, suc, ◌+◌, ◌≡◌, Bool, false, List, [], ◌∷◌, arith, if◌then◌else◌}
use blindvault.Metrics.{
  Event, issuance, consumption, http_request, nullifier_store, revocation, unrevocation,
}
use blindvault.Metrics.Collector.{
  Prometheus, IsPrometheus, Collector, itoa, same_labels, new_metrics_collector,
  record_http_request, record_issuance, record_consumption, record_nullifier_store,
  record_revocation, record_unrevocation, report, report_all,
}

-- Two events of one kind with the same labels.
unfoldable pub same_event : Event → Event → Bool
same_event (issuance r c) (issuance r' c') = same_labels (r ∷ c ∷ []) (r' ∷ c' ∷ [])
same_event (consumption r c e) (consumption r' c' e') =
    same_labels (r ∷ c ∷ e ∷ []) (r' ∷ c' ∷ e' ∷ [])
same_event (http_request m p s) (http_request m' p' s') =
    same_labels (m ∷ p ∷ itoa s ∷ []) (m' ∷ p' ∷ itoa s' ∷ [])
same_event (nullifier_store o r) (nullifier_store o' r') = same_labels (o ∷ r ∷ []) (o' ∷ r' ∷ [])
same_event (revocation r c) (revocation r' c') = same_labels (r ∷ c ∷ []) (r' ∷ c' ∷ [])
same_event (unrevocation r c) (unrevocation r' c') = same_labels (r ∷ c ∷ []) (r' ∷ c' ∷ [])
same_event _ _ = false

-- How often an event occurs in a trace.
unfoldable pub occurrences : Event → List (ℕ × Event) → ℕ
unfolding same_event
occurrences e [] = 0
occurrences e ((seconds, d) ∷ trace) =
    let rest = occurrences e trace in if same_event d e then suc rest else rest

module _ (M : Prometheus) where
  -- The counter of an event.
  unfoldable pub counter : Event → Collector M → ℕ
  counter (issuance r c) m = M.value (r ∷ c ∷ []) m.credential_issuance
  counter (consumption r c e) m = M.value (r ∷ c ∷ e ∷ []) m.credential_consumption
  counter (http_request v p s) m = M.value (v ∷ p ∷ itoa s ∷ []) m.http_requests_total
  counter (nullifier_store o r) m = M.value (o ∷ r ∷ []) m.nullifier_store_ops
  counter (revocation r c) m = M.value (r ∷ c ∷ []) m.revocation_ops
  counter (unrevocation r c) m = M.value (r ∷ c ∷ []) m.unrevocation_ops

  module _ (L : IsPrometheus M) where
    -- Reporting an event adds one to its own counter, and leaves every other counter.
    counter-report :
        (seconds : ℕ) (d e : Event) (m : Collector M)
        → counter e (report M seconds d m)
          ≡ (if same_event d e then suc (counter e m) else counter e m)
    unfolding counter report same_event record_http_request record_issuance record_consumption
        record_nullifier_store record_revocation record_unrevocation
    counter-report seconds d e m = grind (arith, L.value-inc)

    counter-report_all :
        (trace : List (ℕ × Event)) (e : Event) (m : Collector M)
        → counter e (report_all M trace m) ≡ occurrences e trace + counter e m
    unfolding report_all occurrences
    counter-report_all [] e m = omega arith
    counter-report_all ((seconds, d) ∷ trace) e m =
        ground
          (arith, counter-report_all trace e (report M seconds d m), counter-report seconds d e m)

    counter-new : (e : Event) → counter e (new_metrics_collector M) ≡ 0
    unfolding counter new_metrics_collector
    counter-new (issuance r c) = L.value-new_counters _ _ _
    counter-new (consumption r c e) = L.value-new_counters _ _ _
    counter-new (http_request v p s) = L.value-new_counters _ _ _
    counter-new (nullifier_store o r) = L.value-new_counters _ _ _
    counter-new (revocation r c) = L.value-new_counters _ _ _
    counter-new (unrevocation r c) = L.value-new_counters _ _ _

    -- After any trace of reports, the counter of an event shows how often an event of its kind with
    -- its labels was reported.
    pub counter_counts :
        (trace : List (ℕ × Event)) (e : Event)
        → counter e (report_all M trace (new_metrics_collector M)) ≡ occurrences e trace
    counter_counts trace e =
        ground (arith, counter-report_all trace e (new_metrics_collector M), counter-new e)
