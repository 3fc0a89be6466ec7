-- ===== src/Reconcile/Shared.antt =====
-- src/reconcilers/mod.rs.
use strimzi_backup_operator.Base.{
  String, ◌==◌, Bool, Option, none, some, find, is_some_and, unwrap_or, if◌then◌else◌,
}
use strimzi_backup_operator.Base.Text.{eq_ignore_ascii_case, trim, is_empty}
use strimzi_backup_operator.Crd.Backup.{ObjectMeta}
use strimzi_backup_operator.Reconcile.Server.{DeleteParams, background}

abbrev pub finalizer : String
finalizer = "kafkabackup.com/cleanup"

abbrev pub pause_reconciliation_annotation : String
pause_reconciliation_annotation = "strimzi.io/pause-reconciliation"

abbrev pub default_job_service_account : String
default_job_service_account = "strimzi-backup-operator"

unfoldable pub is_reconciliation_paused : ObjectMeta → Bool
unfolding eq_ignore_ascii_case
is_reconciliation_paused metadata =
    is_some_and (find (λ a. a.0 == pause_reconciliation_annotation) metadata.annotations)
      λ a. eq_ignore_ascii_case a.1 "true"

-- `DeleteParams::background()`
abbrev pub cleanup_delete_params : DeleteParams
cleanup_delete_params = record { propagation_policy = some background }

-- `env` is the environment variable.
unfoldable pub job_service_account_name : (env : Option String) → Option String
unfolding trim is_empty
job_service_account_name env =
    let value = trim (unwrap_or env default_job_service_account) in
    if is_empty value then none else some value
