-- ===== src/Metrics.antt =====
-- pkg/metrics and internal/api/metrics.go: what is recorded. A record is appended to a trace; the
-- Prometheus counters that the trace drives are in Collector.
pub mod Collector
use blindvault.Base.{ℕ, Option, none, some, List, [], ◌∷◌, ◌++◌, Text}

-- the methods of MetricsReporter that the program calls, with their labels
pub data Event : Type 0 where
  issuance : Text → Text → Event
  consumption : Text → Text → Text → Event
  http_request : Text → Text → ℕ → Event
  nullifier_store : Text → Text → Event
  revocation : Text → Text → Event
  unrevocation : Text → Text → Event

-- A reporter that may be nil.
abbrev pub Reporter : Type 0
Reporter = Option (List Event)

unfoldable pub record_event : Event → Reporter → Reporter
record_event e none = none
record_event e (some events) = some (events ++ (e ∷ []))
