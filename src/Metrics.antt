-- ===== src/Metrics.antt =====
-- src/metrics/prometheus.rs. The prometheus crate is a parameter, `Prometheus`, with a state of its
-- registry and series; so are its floating-point numbers.
pub mod Registry
pub mod Valid
pub mod Laws
pub mod Counters
use strimzi_backup_operator.Base.{ℕ, String, Bool, Option, none, some, List, [], ◌∷◌, if◌then◌else◌}
use strimzi_backup_operator.Base.Int.{ℤ}
use strimzi_backup_operator.Error.{Result, ok, panic, ◌>>=◌}

-- The bounds of the buckets are in hundredths of a second.
pub data MetricKind : Type 0 where
  int_gauge int_counter gauge : MetricKind
  histogram : (buckets : List ℕ) → MetricKind

pub record Metric : Type 0 where
  pub kind : MetricKind
  pub name : String
  pub help : String
  pub labels : List String

pub record Prometheus (S F : Type 0) : Type 0 where
  -- `Registry::new()`
  pub empty : S
  -- the creation of a metric and `Registry::register`, where an error is `none`
  pub register : Metric → S → Option S
  -- the operations on the series of a metric's label values
  pub inc_by : (name : String) → (values : List String) → ℕ → S → S
  pub set_int : (name : String) → (values : List String) → ℕ → S → S
  pub set : (name : String) → (values : List String) → F → S → S
  pub observe : (name : String) → (values : List String) → F → S → S
  -- `Duration::as_secs_f64` of nanoseconds, and `as f64`
  pub as_secs_f64 : ℕ → F
  pub as_f64 : ℤ → F
  pub zero_f64 : F

-- `expect`
abbrev pub expect {ℓ} : {A : Type ℓ} → Option A → Result A
expect none = panic
expect (some a) = ok a

module _ {S F : Type 0} (p : Prometheus S F) where
  unfoldable pub register_all : List Metric → S → Result S
  register_all [] s = ok s
  register_all (metric ∷ metrics) s = expect (p.register metric s) >>= register_all metrics

  unfoldable pub record_reconciliation :
      (controller : String) → (succeeded : Bool) → (duration : ℕ) → S → S
  record_reconciliation controller succeeded duration s =
      let result = if succeeded then "success" else "error" in
      let labels = controller ∷ result ∷ [] in
      p.observe "strimzi_backup_operator_reconciliation_duration_seconds" labels
        (p.as_secs_f64 duration)
        (p.inc_by "strimzi_backup_operator_reconciliations_total" labels 1 s)

  -- `now` is `Utc::now().timestamp()`.
  unfoldable pub record_backup_success :
      (backup_name cluster : String) → (records bytes : ℕ) → (duration_secs : F) → (now : ℤ) → S → S
  record_backup_success backup_name cluster records bytes duration_secs now s =
      let labels = backup_name ∷ cluster ∷ [] in
      p.set "strimzi_backup_lag_seconds" labels p.zero_f64 (
        p.set "strimzi_backup_last_success_timestamp" labels (p.as_f64 now) (
          p.observe "strimzi_backup_duration_seconds" labels duration_secs (
            p.inc_by "strimzi_backup_bytes_total" labels bytes
              (p.inc_by "strimzi_backup_records_total" labels records s))))

  unfoldable pub record_backup_failure : (backup_name cluster : String) → (now : ℤ) → S → S
  record_backup_failure backup_name cluster now s =
      p.set "strimzi_backup_last_failure_timestamp" (backup_name ∷ cluster ∷ []) (p.as_f64 now) s

  unfoldable pub record_restore_success :
      (restore_name cluster : String) → (records bytes : ℕ) → (duration_secs : F) → S → S
  record_restore_success restore_name cluster records bytes duration_secs s =
      let labels = restore_name ∷ cluster ∷ [] in
      p.observe "strimzi_restore_duration_seconds" labels duration_secs (
        p.inc_by "strimzi_restore_bytes_total" labels bytes
          (p.inc_by "strimzi_restore_records_total" labels records s))
