-- ===== src/Reconcile/Backup/Cleanup.antt =====
-- `handle_cleanup` and `remove_finalizer` of src/reconcilers/backup.rs.
pub mod Laws
use strimzi_backup_operator.Base.{String, List, [], ◌∷◌, unwrap_or}
use strimzi_backup_operator.Base.Text.{format}
use strimzi_backup_operator.JobState.{Job}
use strimzi_backup_operator.Crd.Backup.{ObjectMeta, name_any}
use strimzi_backup_operator.Strimzi.Reads.{Reply, found, failed}
use strimzi_backup_operator.Reconcile.Server.{
  World, Op, ◌>>=◌, ◌>>◌, asks, done, ignoring, send, send_or, Action, kafka_backup,
  null_finalizers, patch_finalizers, delete_job, delete_cronjob, delete_config_map,
}
use strimzi_backup_operator.Reconcile.Shared.{cleanup_delete_params}

unfoldable pub remove_finalizer : World → String → String → Op (Unit {0})
unfolding send_or
remove_finalizer w namespace name =
    send w namespace (patch_finalizers kafka_backup name null_finalizers)

-- A deletion whose failure is dropped.
unfoldable pub try_delete : World → String → Action → Op (Unit {0})
unfolding send_or
try_delete w namespace action log = ignoring (send w namespace action log)

unfoldable pub delete_each : World → String → List Job → Op (Unit {0})
unfolding try_delete
delete_each w namespace [] = done
delete_each w namespace (job ∷ jobs) =
    let rest = delete_each w namespace jobs in
    try_delete w namespace (delete_job cleanup_delete_params (unwrap_or job.name "")) >> rest

unfoldable pub delete_found : World → String → Reply (List Job) → Op (Unit {0})
unfolding delete_each
delete_found w namespace (found jobs) = delete_each w namespace jobs
delete_found w namespace (failed _) = done

unfoldable pub backup_cleanup_selector : String → String
unfolding format
backup_cleanup_selector name =
    format
      ("app.kubernetes.io/managed-by=kafka-backup-operator,kafkabackup.com/backup=" ∷ name ∷ [])

unfoldable pub handle_cleanup : World → ObjectMeta → String → Op (Unit {0})
unfolding backup_cleanup_selector delete_found format remove_finalizer try_delete
handle_cleanup w metadata namespace = do
  let name = name_any metadata
  reply ← asks (λ log. w.jobs log namespace (backup_cleanup_selector name))
  _ ← delete_found w namespace reply
  _ ←
      try_delete w namespace
        (delete_cronjob cleanup_delete_params (format (name ∷ "-scheduled" ∷ [])))
  _ ←
      try_delete w namespace
        (delete_config_map cleanup_delete_params (format (name ∷ "-config" ∷ [])))
  remove_finalizer w namespace name
