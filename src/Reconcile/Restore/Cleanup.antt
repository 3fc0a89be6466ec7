-- ===== src/Reconcile/Restore/Cleanup.antt =====
-- `handle_cleanup` and `remove_finalizer` of src/reconcilers/restore.rs.
use strimzi_backup_operator.Base.{String, List, [], ◌∷◌, unwrap_or}
use strimzi_backup_operator.Base.Text.{format}
use strimzi_backup_operator.JobState.{Job}
use strimzi_backup_operator.Crd.Backup.{ObjectMeta, name_any}
use strimzi_backup_operator.Strimzi.Reads.{Reply, found, failed}
use strimzi_backup_operator.Reconcile.Server.{
  World, Op, ◌>>=◌, ◌>>◌, asks, done, ignoring, send, send_or, kafka_restore, null_finalizers,
  patch_finalizers, delete_job, delete_config_map,
}
use strimzi_backup_operator.Reconcile.Shared.{cleanup_delete_params}

unfoldable pub remove_finalizer : World → String → String → Op (Unit {0})
unfolding send_or
remove_finalizer w namespace name =
    send w namespace (patch_finalizers kafka_restore name null_finalizers)

unfoldable pub cleanup_selector : String → String
unfolding format
cleanup_selector name =
    format
      ("app.kubernetes.io/managed-by=kafka-backup-operator,kafkabackup.com/restore=" ∷ name ∷ [])

-- The loop over the Jobs; failures are dropped.
unfoldable pub delete_jobs : World → String → List Job → Op (Unit {0})
unfolding send_or
delete_jobs w namespace [] = done
delete_jobs w namespace (job ∷ jobs) =
    let rest = delete_jobs w namespace jobs in
    (λ log.
      ignoring (send w namespace (delete_job cleanup_delete_params (unwrap_or job.name "")) log))
    >> rest

-- `if let Ok(job_list) = ...`
unfoldable pub delete_listed : World → String → Reply (List Job) → Op (Unit {0})
unfolding delete_jobs
delete_listed w namespace (found jobs) = delete_jobs w namespace jobs
delete_listed w namespace (failed _) = done

unfoldable pub handle_cleanup : World → ObjectMeta → String → Op (Unit {0})
unfolding cleanup_selector delete_listed format remove_finalizer send_or
handle_cleanup w metadata namespace = do
  let name = name_any metadata
  reply ← asks (λ log. w.jobs log namespace (cleanup_selector name))
  _ ← delete_listed w namespace reply
  _ ← λ log. ignoring (
      send w namespace (delete_config_map cleanup_delete_params (format (name ∷ "-config" ∷ [])))
        log)
  remove_finalizer w namespace name
