-- ===== src/Metrics.antt =====
-- The collectors of backend/metrics.go, as the values that the backend has written to them.
-- Prometheus itself, its buckets and the text format of /metrics are not modelled.
use banana_talk.Prelude.{ℕ, Bool, List, [], if◌then◌else◌, ◌+◌}

pub record Metrics : Type 0 where
  pub active_connections : ℕ
  pub matches_total : ℕ
  pub reports_banned : ℕ
  pub reports_kept : ℕ
  -- Nanoseconds, oldest first.
  pub match_latency : List ℕ
  pub blocked_pairings_total : ℕ

abbrev pub no_metrics : Metrics
no_metrics = record {
  active_connections = 0;
  matches_total = 0;
  reports_banned = 0;
  reports_kept = 0;
  match_latency = [];
  blocked_pairings_total = 0;
}

-- `reportsTotal.WithLabelValues(banned).Inc()`
abbrev pub count_report : Bool → Metrics → Metrics
count_report banned m =
    if banned
    then record m { reports_banned = m.reports_banned + 1 }
    else record m { reports_kept = m.reports_kept + 1 }
