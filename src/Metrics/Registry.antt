-- ===== src/Metrics/Registry.antt =====
-- The metrics that `MetricsState::new` of src/metrics/prometheus.rs registers.
use strimzi_backup_operator.Base.{String, List, [], ◌∷◌}
use strimzi_backup_operator.Error.{Result, ◌>>=◌}
use strimzi_backup_operator.Metrics.{
  Prometheus, Metric, int_gauge, int_counter, gauge, histogram, register_all,
}

abbrev pub operator_build_info : Metric
operator_build_info = record {
  kind = int_gauge;
  name = "strimzi_backup_operator_build_info";
  help = "Build information for the Strimzi backup operator";
  labels = "version" ∷ [];
}

abbrev pub operator_reconciliations_total : Metric
operator_reconciliations_total = record {
  kind = int_counter;
  name = "strimzi_backup_operator_reconciliations_total";
  help = "Total custom resource reconciliations handled by the operator";
  labels = "controller" ∷ "result" ∷ [];
}

abbrev pub operator_reconciliation_duration_seconds : Metric
operator_reconciliation_duration_seconds = record {
  kind = histogram (1 ∷ 5 ∷ 10 ∷ 25 ∷ 50 ∷ 100 ∷ 250 ∷ 500 ∷ 1000 ∷ 3000 ∷ []);
  name = "strimzi_backup_operator_reconciliation_duration_seconds";
  help = "Duration of custom resource reconciliations";
  labels = "controller" ∷ "result" ∷ [];
}

abbrev pub backup_records_total : Metric
backup_records_total = record {
  kind = int_counter;
  name = "strimzi_backup_records_total";
  help = "Total number of records backed up";
  labels = "backup_name" ∷ "cluster" ∷ [];
}

abbrev pub backup_bytes_total : Metric
backup_bytes_total = record {
  kind = int_counter;
  name = "strimzi_backup_bytes_total";
  help = "Total number of bytes backed up";
  labels = "backup_name" ∷ "cluster" ∷ [];
}

abbrev pub backup_duration_seconds : Metric
backup_duration_seconds = record {
  kind = histogram (1000 ∷ 3000 ∷ 6000 ∷ 12000 ∷ 30000 ∷ 60000 ∷ 120000 ∷ 180000 ∷ 360000 ∷ []);
  name = "strimzi_backup_duration_seconds";
  help = "Duration of backup operations in seconds";
  labels = "backup_name" ∷ "cluster" ∷ [];
}

abbrev pub backup_last_success_timestamp : Metric
backup_last_success_timestamp = record {
  kind = gauge;
  name = "strimzi_backup_last_success_timestamp";
  help = "Timestamp of last successful backup (unix epoch)";
  labels = "backup_name" ∷ "cluster" ∷ [];
}

abbrev pub backup_last_failure_timestamp : Metric
backup_last_failure_timestamp = record {
  kind = gauge;
  name = "strimzi_backup_last_failure_timestamp";
  help = "Timestamp of last failed backup (unix epoch)";
  labels = "backup_name" ∷ "cluster" ∷ [];
}

abbrev pub restore_records_total : Metric
restore_records_total = record {
  kind = int_counter;
  name = "strimzi_restore_records_total";
  help = "Total number of records restored";
  labels = "restore_name" ∷ "cluster" ∷ [];
}

abbrev pub restore_bytes_total : Metric
restore_bytes_total = record {
  kind = int_counter;
  name = "strimzi_restore_bytes_total";
  help = "Total number of bytes restored";
  labels = "restore_name" ∷ "cluster" ∷ [];
}

abbrev pub restore_duration_seconds : Metric
restore_duration_seconds = record {
  kind = histogram (1000 ∷ 3000 ∷ 6000 ∷ 12000 ∷ 30000 ∷ 60000 ∷ 120000 ∷ 180000 ∷ 360000 ∷ []);
  name = "strimzi_restore_duration_seconds";
  help = "Duration of restore operations in seconds";
  labels = "restore_name" ∷ "cluster" ∷ [];
}

abbrev pub backup_storage_bytes : Metric
backup_storage_bytes = record {
  kind = gauge;
  name = "strimzi_backup_storage_bytes";
  help = "Total storage used by backups in bytes";
  labels = "backup_name" ∷ "cluster" ∷ [];
}

abbrev pub backup_lag_seconds : Metric
backup_lag_seconds = record {
  kind = gauge;
  name = "strimzi_backup_lag_seconds";
  help = "Time since last successful backup in seconds";
  labels = "backup_name" ∷ "cluster" ∷ [];
}

-- Those after the first, in the order of their registration.
abbrev pub later_metrics : List Metric
later_metrics =
    operator_reconciliations_total ∷ operator_reconciliation_duration_seconds ∷ backup_records_total
    ∷ backup_bytes_total ∷ backup_duration_seconds ∷ backup_last_success_timestamp
    ∷ backup_last_failure_timestamp ∷ restore_records_total ∷ restore_bytes_total
    ∷ restore_duration_seconds ∷ backup_storage_bytes ∷ backup_lag_seconds ∷ []

module _ {S F : Type 0} (p : Prometheus S F) where
  -- `version` is the package's. The series of the first metric is set before the others are made.
  unfoldable pub new : (version : String) → Result S
  unfolding register_all
  new version = register_all p (operator_build_info ∷ []) p.empty >>= λ s.
      register_all p (later_metrics) (p.set_int operator_build_info.name (version ∷ []) 1 s)
