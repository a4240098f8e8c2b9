-- ===== src/Metrics.antt =====
-- internal/metrics/metrics.go: the counters, uint64 and int64 atomics.
use nas_conn_plus.Base.{ℕ, ◌+◌, ◌/◌, ◌%◌, ◌^◌, pos, Str, codes, itoa, ◌++◌, Bool, if◌then◌else◌}

abbrev pub u64 : ℕ → ℕ
u64 n = n % 2 ^ 64

pub record Metrics : Type 0 where
  pub reconciles : ℕ
  pub reconcile_errors : ℕ
  pub last_reconcile_ms : ℕ
  pub probes : ℕ
  pub probe_http : ℕ

-- `ObserveReconcile(d, err)`: a duration is in nanoseconds.
unfoldable pub observe_reconcile : ℕ → Bool → Metrics → Metrics
observe_reconcile d failed m = record m {
  reconciles = u64 (m.reconciles + 1);
  last_reconcile_ms = d / 1000000;
  reconcile_errors = if failed then u64 (m.reconcile_errors + 1) else m.reconcile_errors;
}

-- `ObserveProbe`.
unfoldable pub observe_probe : Bool → Metrics → Metrics
observe_probe is_http m = record m {
  probes = u64 (m.probes + 1);
  probe_http = if is_http then u64 (m.probe_http + 1) else m.probe_http;
}

sample : Str → ℕ → Str
unfolding itoa
sample name n = name ++ (codes " " ++ (itoa (pos n) ++ codes "\n"))

-- What `Handler` writes.
unfoldable pub handler_text : Metrics → Str
unfolding sample
handler_text m =
    sample (codes "nasconn_reconciles_total") m.reconciles
    ++ (sample (codes "nasconn_reconcile_errors_total") m.reconcile_errors
        ++ (sample (codes "nasconn_reconcile_last_duration_ms") m.last_reconcile_ms
            ++ (sample (codes "nasconn_probes_total") m.probes
                ++ sample (codes "nasconn_probes_http_total") m.probe_http)))
